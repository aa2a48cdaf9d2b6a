-- ===== src/Upload/Parts.antt =====
-- How `begin` divides a large file into the parts of a multipart upload.
use native.Mathlib.Nat.{div-add-mod, mod-lt}
use native.Mathlib.Decide.{dec_le}
use rawdb.Base.{
  ℕ, zero, suc, ◌+◌, ◌-◌, ◌*◌, ◌/◌, ◌%◌, ◌≤◌, ◌<◌, max, ◌≡◌, eqb, if◌then◌else◌, arith, ap,
  Bool-cases, eqb_iff, inl, inr,
}

-- S3 caps a multipart upload at 10 000 parts.
abbrev pub max_parts : ℕ
max_parts = 10000

-- `u64::div_ceil`
div_ceil : ℕ → ℕ → ℕ
div_ceil n d = if eqb (n % d) 0 then n / d else n / d + 1

-- `part_size.max(f.size.div_ceil(MAX_PARTS))`
unfoldable pub eff_part : ℕ → ℕ → ℕ
unfolding div_ceil
eff_part part_size size = max part_size (div_ceil size max_parts)

unfoldable pub part_count : ℕ → ℕ → ℕ
unfolding div_ceil
part_count part_size size = div_ceil size (eff_part part_size size)

div_ceil_bounds : (n d : ℕ) → 0 < d → (n ≤ div_ceil n d * d) × (div_ceil n d * d < n + d)
unfolding div_ceil
div_ceil_bounds n d h = elim (Bool-cases (eqb (n % d) 0)) [
  | inl e ↦ rw e (exact (n / d) (n % d) (div-add-mod n d) ((eqb_iff (n % d) 0).0 e))
  | inr e ↦ rw e (rounded (n / d) (n % d) (div-add-mod n d) (mod-lt n h) (ground arith))
]
  where
    exact : (q r : ℕ) → d * q + r ≡ n → r ≡ 0 → (n ≤ q * d) × (q * d < n + d)
    exact q r e z = grind arith

    rounded : (q r : ℕ) → d * q + r ≡ n → r < d → 0 < r → (n ≤ (q + 1) * d) × ((q + 1) * d < n + d)
    rounded q r e l p = grind arith

count_cap : (c e size : ℕ) → size ≤ e * max_parts → c * e < size + e → c ≤ max_parts
count_cap c e size h k = elim (dec_le c max_parts) [
  | yes l ↦ l
  | no g ↦ absurd (too_many (c - max_parts - 1) (omega arith))
]
  where
    too_many : (x : ℕ) → c ≡ x + 1 + max_parts → ⊥
    too_many x p = let q = ap (λ (t : ℕ). t * e) p in grind arith

lower_bounds : (p n : ℕ) → (p ≤ eff_part p n) × (div_ceil n max_parts ≤ eff_part p n)
unfolding eff_part
lower_bounds p n = omega arith

enough_room : (n e : ℕ) → div_ceil n max_parts ≤ e → n ≤ e * max_parts
enough_room n e h = let b = (div_ceil_bounds n max_parts (omega arith)).0 in omega arith

eff_part_pos : (p n : ℕ) → p < n → 0 < eff_part p n
eff_part_pos p n h = pos (eff_part p n) (enough_room n (eff_part p n) (lower_bounds p n).1)
  where
    pos : (e : ℕ) → n ≤ e * max_parts → 0 < e
    pos e k = omega arith

some_count : (c e p n : ℕ) → p < n → n ≤ c * e → 1 ≤ c
some_count zero e p n h k = absurd (grind arith)
some_count (suc c) e p n h k = omega arith

last_part : (c e n : ℕ) → 0 < n → c * e < n + e → (c - 1) * e < n
last_part zero e n p k = grind arith
last_part (suc c) e n p k = grind arith

-- The parts of a file that is larger than `part_size`: none is smaller than `part_size`, there are
-- 1 to 10 000 of them, together they hold the file, and without the last one they do not.
pub record FitsFile (part_size size part count : ℕ) : Type 0 where
  pub large_enough : part_size ≤ part
  pub some_part : 1 ≤ count
  pub within_cap : count ≤ max_parts
  pub holds : size ≤ count * part
  pub tight : (count - 1) * part < size

-- The multipart plan of a file larger than the configured part size fits the file and the cap of S3.
pub plan-FitsFile :
    (part_size size : ℕ)
    → part_size < size
    → FitsFile part_size size (eff_part part_size size) (part_count part_size size)
plan-FitsFile part_size size h =
    let (large, enough) = lower_bounds part_size size in
    let (holds, below) =
      div_ceil_bounds size (eff_part part_size size) (eff_part_pos part_size size h) in
    record {
      large_enough = large;
      some_part =
          unfold part_count in
          some_count (div_ceil size (eff_part part_size size)) (eff_part part_size size) part_size
            size h holds;
      within_cap =
          unfold part_count in
          count_cap (div_ceil size (eff_part part_size size)) (eff_part part_size size) size
            (enough_room size (eff_part part_size size) enough) below;
      holds = unfold part_count in holds;
      tight =
          unfold part_count in
          last_part (div_ceil size (eff_part part_size size)) (eff_part part_size size) size
            (omega arith) below;
    }
