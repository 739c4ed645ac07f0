-- ===== src/Seaorm/QueryTracing/Bounds.antt =====
-- Which texts a threshold is read from.
use modular_rust_platform.Base.{
  ℕ, suc, ◌+◌, ◌-◌, ◌*◌, ◌^◌, ◌≤◌, ◌<◌, String, true, false, ◌&&◌, Option, none, some, [], ◌∷◌, ltb,
  leb, ◌==◌, ◌≡◌, ◌≢◌, ◌⊎◌, ◌↔◌, inl, inr, refl, sym, ap, ◌∙◌, subst, All, arith, Bool-cases,
  Option-cases, length, some_injective, none-ne-some, false-ne-true, zero, ==_iff,
}
use modular_rust_platform.Base.Text.{Text, codes}
use modular_rust_platform.Di.Context.{Environment}
use modular_rust_platform.Seaorm.QueryTracing.{
  query_tracing_config_from_env, threshold, millis, defaults, digits_value, unsigned, signed,
  parse_u64,
}

abbrev pub IsDigit : ℕ → Type 0
IsDigit c = (48 ≤ c) × (c ≤ 57)

abbrev pub power : ℕ → ℕ
power zero = 1
power (suc k) = 10 * power k

-- The number that digits stand for, by their places.
abbrev pub value : Text → ℕ
value [] = 0
value (c ∷ t) = (c - 48) * power (length t) + value t

shift_digits : (n d p v : ℕ) → (n * 10 + d) * p + v ≡ n * (10 * p) + (d * p + v)
shift_digits n d p v = grind arith

leb-IsDigit : (c : ℕ) → (leb 48 c && leb c 57 ≡ true) ↔ IsDigit c
leb-IsDigit c = ground arith

digits_value_iff :
    (t : Text) (n m : ℕ)
    → (digits_value t n ≡ some m) ↔ (All IsDigit t × (m ≡ n * power (length t) + value t))
unfolding digits_value
digits_value_iff [] n m =
    ((λ e. (tt, omega (arith, some_injective e))), λ (_, e). ap some (omega (arith, e)))
digits_value_iff (c ∷ t) n m =
    let rest = digits_value_iff t (n * 10 + (c - 48)) m in
    let moved = shift_digits n (c - 48) (power (length t)) (value t) in
    elim (Bool-cases (leb 48 c && leb c 57)) [
      | inl digit ↦ rw digit (
        (λ e. let (all, same) = rest.0 e in (((leb-IsDigit c).0 digit, all), same ∙ moved)),
        λ ((here, all), same). rest.1 (all, same ∙ sym moved),
      )
      | inr other ↦ rw other (
        (λ e. absurd (none-ne-some e)),
        λ ((here, all), same). absurd (false-ne-true (sym other ∙ (leb-IsDigit c).1 here)),
      )
    ]

-- What `parse::<u64>` reads: at most one `+`, then the digits of the number, which fits in 64 bits.
abbrev pub Reads : Text → ℕ → Type 0
Reads t n =
    (digits : Text) × ((t ≡ digits) ⊎ (t ≡ b'+' ∷ digits))
    × (digits ≢ [])
    × All IsDigit digits
    × (n ≡ value digits)
    × (n < 2 ^ 64)

no_carry : (a b : ℕ) → 0 * a + b ≡ b
no_carry a b = grind arith

unsigned_iff :
    (t : Text) (n : ℕ) → (unsigned t ≡ some n) ↔ ((t ≢ []) × All IsDigit t × (n ≡ value t))
unsigned_iff [] n = ((λ e. absurd (none-ne-some e)), λ (filled, all, e). absurd (filled refl))
unsigned_iff (c ∷ t) n =
    let rest = digits_value_iff (c ∷ t) 0 n in
    (
      (λ e. let (all, same) = rest.0 e in ((λ empty. cc), all, same ∙ no_carry _ _)),
      λ (filled, all, same). rest.1 (all, same ∙ sym (no_carry _ _)),
    )

abbrev Signed : Text → ℕ → Type 0
Signed t n =
    (digits : Text) × ((t ≡ digits) ⊎ (t ≡ b'+' ∷ digits))
    × (digits ≢ [])
    × All IsDigit digits
    × (n ≡ value digits)

from_plus : (t : Text) (n : ℕ) → Signed (b'+' ∷ t) n → unsigned t ≡ some n
from_plus t n ([], inl same, filled, all, total) = absurd (filled refl)
from_plus t n (d ∷ digits, inl same, filled, all, total) =
    let plus : d ≡ 43 = cc in absurd (omega (arith, all.0, plus))
from_plus t n (digits, inr same, filled, all, total) =
    let tail : digits ≡ t = cc in
    (unsigned_iff t n).1
      ((λ empty. filled (tail ∙ empty)), subst (All IsDigit) tail all, total ∙ ap value tail)

from_digit :
    (c : ℕ) (t : Text) (n : ℕ) → (c == 43) ≡ false → Signed (c ∷ t) n → unsigned (c ∷ t) ≡ some n
from_digit c t n other (digits, inl same, filled, all, total) =
    (unsigned_iff (c ∷ t) n).1
      ((λ empty. cc), subst (All IsDigit) (sym same) all, total ∙ ap value (sym same))
from_digit c t n other (digits, inr same, filled, all, total) =
    let plus : c ≡ 43 = cc in absurd (false-ne-true (sym other ∙ (==_iff c 43).1 plus))

signed_iff : (t : Text) (n : ℕ) → (signed t ≡ some n) ↔ Signed t n
signed_iff [] n = (
  (λ e. absurd (none-ne-some e)),
  λ (digits, shape, filled, all, total). elim shape [
    | inl same ↦ absurd (filled (sym same))
    | inr same ↦ absurd (cc)
  ],
)
signed_iff (c ∷ t) n = elim (Bool-cases (c == b'+')) [
  | inl plus ↦
      let first : c ≡ 43 = (==_iff c 43).0 plus in
      (
        (λ e.
            let (filled, all, total) = (unsigned_iff t n).0 (rw plus at e) in
            (t, inr (ap (λ x. x ∷ t) first), filled, all, total)),
        λ s. rw plus (from_plus t n (subst (λ x. Signed (x ∷ t) n) first s)),
      )
  | inr digit ↦ (
    (λ e.
        let (filled, all, total) = (unsigned_iff (c ∷ t) n).0 (rw digit at e) in
        (c ∷ t, inl refl, filled, all, total)),
    λ s. rw digit (from_digit c t n digit s),
  )
]

ltb_iff : (a b : ℕ) → (ltb a b ≡ true) ↔ (a < b)
ltb_iff a b = ground arith

-- A text is read as a number exactly if it is that number in decimal, with at most one `+` before it, and
-- the number fits in 64 bits.
pub parse_u64_iff : (t : Text) (n : ℕ) → (parse_u64 t ≡ some n) ↔ Reads t n
unfolding parse_u64
parse_u64_iff t n = (to, from)
  where
    to : parse_u64 t ≡ some n → Reads t n
    to e = elim (Option-cases (signed t)) [
      | inl bad ↦ absurd (none-ne-some (rw (bad, parse_u64) at e))
      | inr (m, good) ↦
          let bounded = rw (good, parse_u64) at e in
          elim (Bool-cases (ltb m (2 ^ 64))) [
            | inl small ↦
                let same : m ≡ n = some_injective (rw small at bounded) in
                let (digits, shape, filled, all, total) = (signed_iff t m).0 good in
                (
                  digits,
                  shape,
                  filled,
                  all,
                  sym same ∙ total,
                  subst (λ k. k < 2 ^ 64) same ((ltb_iff m (2 ^ 64)).0 small),
                )
            | inr large ↦ absurd (none-ne-some (rw large at bounded))
          ]
    ]

    from : Reads t n → parse_u64 t ≡ some n
    from (digits, shape, filled, all, total, small) =
        let good = (signed_iff t n).1 (digits, shape, filled, all, total) in
        rw (good, parse_u64) (rw ((ltb_iff n (2 ^ 64)).1 small) refl)

parse_u64-none : (t : Text) → parse_u64 t ≡ none → ¬ ((n : ℕ) × Reads t n)
parse_u64-none t failed (n, reads) =
    absurd (none-ne-some (sym failed ∙ (parse_u64_iff t n).1 reads))

-- What the threshold for slow queries may be.
abbrev pub Threshold : Option String → ℕ → Type 0
Threshold variable ns =
    (ns < millis (2 ^ 64))
    × (((v : String) × (n : ℕ) × (variable ≡ some v) × Reads (codes v) n × (ns ≡ millis n))
        ⊎ (((v : String) → variable ≡ some v → ¬ ((n : ℕ) × Reads (codes v) n))
            × (ns ≡ millis 200)))

threshold-Threshold : (variable : Option String) → Threshold variable (threshold variable)
unfolding defaults
threshold-Threshold none = (omega arith, inr ((λ v e. absurd (none-ne-some e)), refl))
threshold-Threshold (some v) = elim (Option-cases (parse_u64 (codes v))) [
  | inl failed ↦ rw failed (
    omega arith,
    inr (
      (λ u same.
          parse_u64-none (codes u)
            (ap (λ s. parse_u64 (codes s)) (sym (some_injective same)) ∙ failed)),
      refl,
    ),
  )
  | inr (n, read) ↦
      let reads = (parse_u64_iff (codes v) n).0 read in
      rw read (below n reads, inl (v, n, refl, reads, refl))
]
  where
    below : (n : ℕ) → Reads (codes v) n → millis n < millis (2 ^ 64)
    below n (digits, shape, filled, all, total, small) = omega (arith, small)

-- The threshold for slow queries is the number of milliseconds that MRP_DB_SLOW_QUERY_MS is in decimal, if
-- that fits in 64 bits, and 200 milliseconds where the variable is unset or is no such number.
pub query_tracing_config_from_env-Threshold :
    (env : Environment)
    → Threshold
        (env "MRP_DB_SLOW_QUERY_MS")
        (query_tracing_config_from_env env).slow_query_threshold
unfolding query_tracing_config_from_env
query_tracing_config_from_env-Threshold env = threshold-Threshold (env "MRP_DB_SLOW_QUERY_MS")
