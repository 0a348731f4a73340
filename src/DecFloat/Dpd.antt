-- ===== src/DecFloat/Dpd.antt =====
-- Densely packed decimals: ten bits for three digits, both ways.
use firebirdsql_go.Base.{
  ◌>>=◌, ℕ, zero, suc, ◌+◌, ◌*◌, ◌/◌, ◌%◌, ◌^◌, ◌<◌, ◌≡◌, refl, sym, ap, ◌∙◌, arith, Bool, true,
  false, ◌&&◌, Option, none, some, List, [], ◌∷◌, All, ◌==◌, ltb, if◌then◌else◌, Option-cases, inl,
  inr,
}
use firebirdsql_go.Base.Tables.{holds_to, holds_to→holds}
use firebirdsql_go.DecFloat.{dpd_to_int, segments, add_segments, calc_significand}

-- The encoding of the standard: a digit below 8 has three bits of its own, and a digit of 8 or 9 one.
abbrev pub declet : ℕ → ℕ → ℕ → ℕ
declet a b c =
    let big_a = a / 8 == 1 in
    let big_b = b / 8 == 1 in
    let big_c = c / 8 == 1 in
    let a0 = a % 2 in
    let b0 = b % 2 in
    let c0 = c % 2 in
    if big_a
    then if big_b
      then if big_c
        then a0 * 128 + 96 + b0 * 16 + 14 + c0
        else c / 2 * 256 + a0 * 128 + b0 * 16 + 14 + c0
      else if big_c
      then b / 2 * 256 + a0 * 128 + 32 + b0 * 16 + 14 + c0
      else c / 2 * 256 + a0 * 128 + b * 16 + 12 + c0
    else if big_b
    then if big_c
      then a * 128 + 64 + b0 * 16 + 14 + c0
      else a * 128 + c / 2 * 32 + b0 * 16 + 10 + c0
    else if big_c
    then a * 128 + b * 16 + 8 + c0
    else a * 128 + b * 16 + c

unfoldable pub int_to_dpd : ℕ → ℕ
int_to_dpd n = declet (n / 100) (n / 10 % 10) (n % 10)

abbrev is_below : ℕ → Option ℕ → Bool
is_below bound none = false
is_below bound (some n) = ltb n bound

abbrev is_value : ℕ → Option ℕ → Bool
is_value n none = false
is_value n (some m) = m == n

below_table : holds_to (λ d. is_below 1000 (dpd_to_int d)) 1024 ≡ true
unfolding dpd_to_int holds_to
below_table = refl

-- Ten bits always stand for a number below 1000.
pub dpd_to_int_below : (dpd : ℕ) → dpd < 1024 → (n : ℕ) × (dpd_to_int dpd ≡ some n) × (n < 1000)
dpd_to_int_below dpd h = elim (Option-cases (dpd_to_int dpd)) [
  | inl e ↦ absurd (cc (sym (ap (is_below 1000) e) ∙ checked))
  | inr (n, e) ↦ (n, e, ground (arith, sym (ap (is_below 1000) e) ∙ checked))
]
  where
    checked : is_below 1000 (dpd_to_int dpd) ≡ true
    checked = holds_to→holds (λ d. is_below 1000 (dpd_to_int d)) 1024 below_table dpd h

inverse_table :
    holds_to (λ n. is_value n (dpd_to_int (int_to_dpd n)) && ltb (int_to_dpd n) 1024) 1000 ≡ true
unfolding dpd_to_int holds_to int_to_dpd
inverse_table = refl

-- The encoding of a number below 1000 is ten bits, and stands for it.
pub dpd_to_int-int_to_dpd :
    (n : ℕ) → n < 1000 → (dpd_to_int (int_to_dpd n) ≡ some n) × (int_to_dpd n < 1024)
dpd_to_int-int_to_dpd n h = elim (Option-cases (dpd_to_int (int_to_dpd n))) [
  | inl e ↦ absurd (
      cc (
        sym (ap (is_value n) e)
        ∙ (both (is_value n (dpd_to_int (int_to_dpd n))) (ltb (int_to_dpd n) 1024) checked).0))
  | inr (m, e) ↦ (
    e ∙ ap some (same m e),
    below (int_to_dpd n)
        (both (is_value n (dpd_to_int (int_to_dpd n))) (ltb (int_to_dpd n) 1024) checked).1,
  )
]
  where
    both : (a b : Bool) → (a && b) ≡ true → (a ≡ true) × (b ≡ true)
    both a b e = ground arith

    below : (m : ℕ) → ltb m 1024 ≡ true → m < 1024
    below m e = ground arith

    equal : (m : ℕ) → (m == n) ≡ true → m ≡ n
    equal m e = ground arith

    checked : (is_value n (dpd_to_int (int_to_dpd n)) && ltb (int_to_dpd n) 1024) ≡ true
    checked =
        holds_to→holds (λ k. is_value k (dpd_to_int (int_to_dpd k)) && ltb (int_to_dpd k) 1024) 1000
          inverse_table n h

    same : (m : ℕ) → dpd_to_int (int_to_dpd n) ≡ some m → m ≡ n
    same m e = equal m (
        sym (ap (is_value n) e)
        ∙ (both (is_value n (dpd_to_int (int_to_dpd n))) (ltb (int_to_dpd n) 1024) checked).0)

-- The thousands of a number, the last one first, and what stands above them.
abbrev pub thousands : ℕ → ℕ → List ℕ
thousands zero c = []
thousands (suc n) c = c % 1000 ∷ thousands n (c / 1000)

abbrev pub top : ℕ → ℕ → ℕ
top zero c = c
top (suc n) c = top n (c / 1000)

abbrev join : ℕ → List ℕ → ℕ
join v [] = v
join v (d ∷ ds) = d + 1000 * join v ds

-- Ten bits for each of the thousands.
unfoldable pub pack : List ℕ → ℕ
pack [] = 0
pack (d ∷ ds) = int_to_dpd d + 1024 * pack ds

join-thousands : (n c : ℕ) → join (top n c) (thousands n c) ≡ c
join-thousands zero c = refl
join-thousands (suc n) c = omega (arith, join-thousands n (c / 1000))

-- The segments of what was packed add up to the number.
add_segments-pack :
    (n c v : ℕ) (acc : List ℕ)
    → add_segments v (segments n (pack (thousands n c)) acc)
      ≡ add_segments (join v (thousands n c)) acc
unfolding segments add_segments pack
add_segments-pack zero c v acc = refl
add_segments-pack (suc n) c v acc =
    let x = int_to_dpd (c % 1000) in
    let p = pack (thousands n (c / 1000)) in
    let (reads, short) = dpd_to_int-int_to_dpd (c % 1000) (omega arith) in
    let w = join v (thousands n (c / 1000)) in
    ap (λ q. add_segments v (segments n q ((x + 1024 * p) % 1024 ∷ acc))) (high x p short)
    ∙ ap (λ r. add_segments v (segments n p (r ∷ acc))) (low x p short)
    ∙ add_segments-pack n (c / 1000) v (x ∷ acc)
    ∙ ap (λ o. o >>= λ k. add_segments (w * 1000 + k) acc) reads
    ∙ ap (λ k. add_segments k acc) (omega arith)
  where
    high : (x p : ℕ) → x < 1024 → (x + 1024 * p) / 1024 ≡ p
    high x p h = omega arith

    low : (x p : ℕ) → x < 1024 → (x + 1024 * p) % 1024 ≡ x
    low x p h = omega arith

-- The significand of an encoded number is the number.
pub calc_significand-pack :
    (c : ℕ) → calc_significand (top 11 c) (pack (thousands 11 c)) 110 ≡ some c
unfolding calc_significand add_segments
calc_significand-pack c = add_segments-pack 11 c (top 11 c) [] ∙ ap some (join-thousands 11 c)

pub calc_significand-pack64 :
    (c : ℕ) → calc_significand (top 5 c) (pack (thousands 5 c)) 50 ≡ some c
unfolding calc_significand add_segments
calc_significand-pack64 c = add_segments-pack 5 c (top 5 c) [] ∙ ap some (join-thousands 5 c)

abbrev cap : ℕ → ℕ
cap zero = 1
cap (suc n) = 1024 * cap n

pack_lt : (n c : ℕ) → pack (thousands n c) < cap n
unfolding pack
pack_lt zero c = omega arith
pack_lt (suc n) c =
    omega (arith, pack_lt n (c / 1000), (dpd_to_int-int_to_dpd (c % 1000) (omega arith)).1)

pub pack_lt128 : (c : ℕ) → pack (thousands 11 c) < 2 ^ 110
pack_lt128 c = pack_lt 11 c

pub pack_lt64 : (c : ℕ) → pack (thousands 5 c) < 2 ^ 50
pack_lt64 c = pack_lt 5 c

-- Any segments of ten bits add up, to less than the thousands that they are.
abbrev grow : List ℕ → ℕ → ℕ
grow [] b = b
grow (d ∷ ds) b = grow ds (1000 * b)

add_segments_total :
    (ds : List ℕ) (v b : ℕ)
    → All (λ d. d < 1024) ds
    → v < b
    → (c : ℕ) × (add_segments v ds ≡ some c) × (c < grow ds b)
unfolding add_segments
add_segments_total [] v b h k = (v, refl, k)
add_segments_total (d ∷ ds) v b h k =
    let (n, e, lt) = dpd_to_int_below d h.0 in
    let (c, f, below) = add_segments_total ds (v * 1000 + n) (1000 * b) h.1 (omega arith) in
    (c, ap (λ o. o >>= λ m. add_segments (v * 1000 + m) ds) e ∙ f, below)

ten_bits :
    (n bits : ℕ) (acc : List ℕ)
    → All (λ d. d < 1024) acc
    → All (λ d. d < 1024) (segments n bits acc)
unfolding segments
ten_bits zero bits acc h = h
ten_bits (suc n) bits acc h = ten_bits n (bits / 1024) (bits % 1024 ∷ acc) (omega arith, h)

-- Every significand of 11 segments is a number of 34 digits, and of 5 one of 16.
pub calc_significand_total :
    (prefix bits : ℕ)
    → prefix < 10
    → ((c : ℕ) × (calc_significand prefix bits 110 ≡ some c) × (c < 10 ^ 34))
      × ((c : ℕ) × (calc_significand prefix bits 50 ≡ some c) × (c < 10 ^ 16))
unfolding calc_significand segments
calc_significand_total prefix bits h = (
  add_segments_total (segments 11 bits []) prefix 10 (ten_bits 11 bits [] tt) h,
  add_segments_total (segments 5 bits []) prefix 10 (ten_bits 5 bits [] tt) h,
)
