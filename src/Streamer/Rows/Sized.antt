-- ===== src/Streamer/Rows/Sized.antt =====
-- What the rows of the file that internal/streamer/streamer.go reads come to, and the calls of a pass.
use vantage.Prelude.{
  ℕ, zero, suc, ◌≤◌, ◌<◌, ◌≡◌, refl, ap, sym, ◌∙◌, true, List, [], ◌∷◌, ◌++◌, append-nil,
  append_assoc, Option, none, some, leb, length, arith,
}
use vantage.Message.{TelemetryMessage}

abbrev pub messages : List (Option TelemetryMessage) → List TelemetryMessage
messages [] = []
messages (none ∷ ms) = messages ms
messages (some m ∷ ms) = m ∷ messages ms

abbrev pub concat : List (List TelemetryMessage) → List TelemetryMessage
concat [] = []
concat (b ∷ bs) = b ++ concat bs

-- No call publishes nothing, or more than the size of a batch.
abbrev pub AllSized : ℕ → List (List TelemetryMessage) → Type 0
AllSized n [] = Unit
AllSized n (b ∷ bs) = (0 < length b) × (length b ≤ n) × AllSized n bs

pub concat-snoc :
    (bs : List (List TelemetryMessage)) (b : List TelemetryMessage)
    → concat (bs ++ b ∷ []) ≡ concat bs ++ b
concat-snoc [] b = append-nil b
concat-snoc (c ∷ bs) b = ap (λ zs. c ++ zs) (concat-snoc bs b) ∙ sym (append_assoc c (concat bs) b)

pub AllSized-snoc :
    (n : ℕ) (bs : List (List TelemetryMessage)) (b : List TelemetryMessage)
    → AllSized n bs
    → 0 < length b
    → length b ≤ n
    → AllSized n (bs ++ b ∷ [])
AllSized-snoc n [] b all p q = (p, q, tt)
AllSized-snoc n (c ∷ bs) b (l, h, all) p q = (l, h, AllSized-snoc n bs b all p q)

-- The size of a call: 1 for a batch size of at most 1.
abbrev pub call_size : ℕ → ℕ
call_size zero = 1
call_size (suc n) = suc n

pub call_size_pos : (n : ℕ) → 0 < call_size n
call_size_pos zero = omega arith
call_size_pos (suc n) = omega arith

pub call_size-le : (n : ℕ) → n ≤ call_size n
call_size-le zero = omega arith
call_size-le (suc n) = omega arith

pub call_size_one : (n : ℕ) → leb n 1 ≡ true → call_size n ≡ 1
call_size_one zero h = refl
call_size_one (suc n) h = ground (arith, h)

pub nil_of : (xs : List TelemetryMessage) (n : ℕ) → n ≡ 1 → length xs < n → xs ≡ []
nil_of [] n e h = refl
nil_of (x ∷ xs) n e h = absurd (omega (arith, e, h))

pub messages_cons :
    (read : List TelemetryMessage) (m : Option TelemetryMessage)
    (ms : List (Option TelemetryMessage))
    → (read ++ messages (m ∷ [])) ++ messages ms ≡ read ++ messages (m ∷ ms)
messages_cons read none ms = ap (λ zs. zs ++ messages ms) (append-nil read)
messages_cons read (some m) ms = append_assoc read (m ∷ []) (messages ms)
