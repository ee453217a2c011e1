-- ===== src/Gateway/Handlers/Named.antt =====
-- The rows whose cursor internal/gateway/cursor.go reads back, and the last row of a page.
use text.Mathlib.Text.{◌==◌ as str_eq}
use vantage.Prelude.{
  ℕ, zero, suc, ◌<◌, ◌≡◌, refl, ap, Bool, true, false, List, [], ◌∷◌, ◌++◌, some, length, take,
  drop, ltb, if◌then◌else◌, arith,
}
use vantage.Collector.{GpuMetric}
use vantage.Gateway.{TelemetryCursor, Env, encode_cursor}

-- The encodings can be read back, and no cursor of a row has the empty text.
pub record IsCodec {Time Bytes : Type 0} (env : Env Time Bytes) : Type 0 where
  pub base64 : (b : Bytes) → env.decode_base64 (env.encode_base64 b) ≡ some b
  pub json : (c : TelemetryCursor Time) → env.unmarshal (env.marshal c) ≡ some c
  pub filled :
      (c : TelemetryCursor Time)
      → str_eq c.metric "" ≡ false
      → str_eq (env.encode_base64 (env.marshal c)) "" ≡ false

pub written :
    {Time Bytes : Type 0} {env : Env Time Bytes} (codec : IsCodec env) (c : TelemetryCursor Time)
    → str_eq c.metric "" ≡ false
    → str_eq (encode_cursor env c) "" ≡ false
unfolding encode_cursor
written {env = env} codec c titled = codec.filled c titled

pub positive : (n : ℕ) → 0 < n → (k : ℕ) × (n ≡ suc k)
positive zero h = absurd (omega arith)
positive (suc n) h = (n, refl)

pub empty_page : {A : Type 0} (n : ℕ) (h : Bool) → take {A = A} n [] ++ (if h then [] else []) ≡ []
empty_page zero true = refl
empty_page zero false = refl
empty_page (suc n) true = refl
empty_page (suc n) false = refl

-- The position of a row.
abbrev pub key_of : {Time : Type 0} → GpuMetric Time → TelemetryCursor Time
key_of row = record { ts = row.timestamp; metric = row.metric_name }

-- A row that a cursor can name.
abbrev pub IsNamed : {Time Bytes : Type 0} → Env Time Bytes → GpuMetric Time → Type 0
IsNamed env row = (env.is_zero row.timestamp ≡ false) × (str_eq row.metric_name "" ≡ false)

abbrev pub AllNamed : {Time Bytes : Type 0} → Env Time Bytes → List (GpuMetric Time) → Type 0
AllNamed env [] = Unit
AllNamed env (row ∷ rows) = IsNamed env row × AllNamed env rows

pub AllNamed-at :
    {Time Bytes : Type 0} (env : Env Time Bytes) (xs : List (GpuMetric Time)) (row : GpuMetric Time)
    (ys : List (GpuMetric Time))
    → AllNamed env (xs ++ row ∷ ys)
    → IsNamed env row
AllNamed-at env [] row ys (here, rest) = here
AllNamed-at env (x ∷ xs) row ys (here, rest) = AllNamed-at env xs row ys rest

-- The last item of a page that does not show all.
abbrev pub LastAt : {A : Type 0} → ℕ → List A → Type 0
LastAt {A = A} n xs =
    (pre : List A) × (x : A) × (take n xs ≡ pre ++ x ∷ []) × (xs ≡ pre ++ x ∷ drop n xs)

pub last_at : {A : Type 0} (n : ℕ) (xs : List A) → n < length xs → LastAt (suc n) xs
last_at n [] h = absurd (omega arith)
last_at zero (x ∷ xs) h = ([], x, refl, refl)
last_at (suc n) (x ∷ xs) h =
    let (pre, y, shown, split) = last_at n xs (omega (arith, h)) in
    (x ∷ pre, y, ap (λ ys. x ∷ ys) shown, ap (λ ys. x ∷ ys) split)

pub take_short : {A : Type 0} (n : ℕ) (xs : List A) → ltb n (length xs) ≡ false → take n xs ≡ xs
take_short zero [] h = refl
take_short zero (x ∷ xs) h = absurd (ground (arith, h))
take_short (suc n) [] h = refl
take_short (suc n) (x ∷ xs) h = ap (λ ys. x ∷ ys) (take_short n xs (ground (arith, h)))
