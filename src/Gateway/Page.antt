-- ===== src/Gateway/Page.antt =====
-- What internal/gateway/handler.go makes of a request's parameters, and the cursor of
-- internal/gateway/cursor.go.
use Prim.Native.String.{String}
use text.Mathlib.Text.{◌==◌ as str_eq}
use vantage.Prelude.{
  ℕ, zero, suc, ◌≤◌, ◌<◌, ◌≡◌, ◌⊎◌, inl, inr, refl, Bool, true, false, Option, none, some,
  if◌then◌else◌, arith,
}
use vantage.Prelude.Int.{ℤ, pos, negsuc}
use vantage.Gateway.{
  TelemetryCursor, Env, error_response, Request, Checked, good, refuse, ◌>>=◌, Query, decode_cursor,
  parse_query, parse_bound, time_or, parse_limit, limit_of, parse_offset, offset_of, parse_cursor,
  cursor_of, bad_request,
}

-- A refusal is a 400.
abbrev pub Passes : {Time A : Type 0} → (A → Type 0) → Checked Time A → Type 0
Passes P (good a) = P a
Passes P (refuse r) = (msg : String) × (r ≡ error_response 400 msg)

Passes-weaken :
    {Time A : Type 0} (P Q : A → Type 0) (c : Checked Time A)
    → Passes P c
    → ((a : A) → P a → Q a)
    → Passes Q c
Passes-weaken P Q (good a) p weaker = weaker a p
Passes-weaken P Q (refuse r) p weaker = p

-- What the checks promise of the parameters.
abbrev pub IsChecked : {Time : Type 0} → ℕ → Query Time → Type 0
IsChecked max_rows q = (0 < q.limit) × (q.limit ≤ max_rows) × ((q.cursor ≡ none) ⊎ (q.offset ≡ 0))

Passes-bind :
    {Time A B : Type 0} (P : A → Type 0) (Q : B → Type 0) (c : Checked Time A)
    (f : A → Checked Time B)
    → Passes P c
    → ((a : A) → P a → Passes Q (f a))
    → Passes Q (c >>= f)
Passes-bind P Q (good a) f p next = next a p
Passes-bind P Q (refuse r) f p next = p

Passes-if :
    {Time A : Type 0} (P : A → Type 0) (q : Bool) (c d : Checked Time A)
    → (q ≡ true → Passes P c)
    → (q ≡ false → Passes P d)
    → Passes P (if q then c else d)
Passes-if P true c d yes_case no_case = yes_case refl
Passes-if P false c d yes_case no_case = no_case refl

module _ {Time Bytes : Type 0} (env : Env Time Bytes) where
  time_or-Passes : (msg : String) (o : Option Time) → Passes (λ t. Unit) (time_or env msg o)
  unfolding time_or bad_request
  time_or-Passes msg none = (msg, refl)
  time_or-Passes msg (some t) = tt

  parse_bound-Passes : (msg v : String) → Passes (λ t. Unit) (parse_bound env msg v)
  unfolding parse_bound
  parse_bound-Passes msg v =
      Passes-if (λ t. Unit) (str_eq v "") (good none) (time_or env msg (env.parse_rfc3339 v))
        (λ _. tt) (λ _. time_or-Passes msg (env.parse_rfc3339 v))

  limit_of-Passes :
      (max_rows : ℕ) (n : Option ℤ)
      → 0 < max_rows
      → Passes (λ n. (0 < n) × (n ≤ max_rows)) (limit_of env max_rows n)
  unfolding limit_of bad_request
  limit_of-Passes max_rows (some (pos (suc n))) p = ground arith
  limit_of-Passes max_rows (some (pos zero)) p = ("limit must be a positive integer", refl)
  limit_of-Passes max_rows (some (negsuc n)) p = ("limit must be a positive integer", refl)
  limit_of-Passes max_rows none p = ("limit must be a positive integer", refl)

  parse_limit-Passes :
      (max_rows : ℕ) (v : String)
      → 0 < max_rows
      → Passes (λ n. (0 < n) × (n ≤ max_rows)) (parse_limit env max_rows v)
  unfolding parse_limit
  parse_limit-Passes max_rows v p =
      Passes-if (λ n. (0 < n) × (n ≤ max_rows)) (str_eq v "") (good max_rows)
        (limit_of env max_rows (env.atoi v)) (λ _. (p, omega arith))
        (λ _. limit_of-Passes max_rows (env.atoi v) p)

  offset_of-Passes : (n : Option ℤ) → Passes (λ n. Unit) (offset_of env n)
  unfolding offset_of bad_request
  offset_of-Passes (some (pos n)) = tt
  offset_of-Passes (some (negsuc n)) = ("offset must be a non-negative integer", refl)
  offset_of-Passes none = ("offset must be a non-negative integer", refl)

  -- No offset is 0.
  parse_offset-Passes :
      (v : String) → Passes (λ n. (n ≡ 0) ⊎ (str_eq v "" ≡ false)) (parse_offset env v)
  unfolding parse_offset
  parse_offset-Passes v =
      let P : ℕ → Type 0 = λ n. (n ≡ 0) ⊎ (str_eq v "" ≡ false) in
      Passes-if P (str_eq v "") (good 0) (offset_of env (env.atoi v)) (λ _. inl refl)
        (λ given.
          Passes-weaken (λ n. Unit) P (offset_of env (env.atoi v)) (offset_of-Passes (env.atoi v))
            (λ n _. inr given))

  cursor_of-Passes : (c : Option (TelemetryCursor Time)) → Passes (λ c. Unit) (cursor_of env c)
  unfolding cursor_of bad_request
  cursor_of-Passes none = ("invalid cursor: pass pagination.next_cursor verbatim", refl)
  cursor_of-Passes (some c) = tt

  -- A cursor comes without an offset.
  parse_cursor-Passes :
      (v offset : String)
      → Passes (λ c. (c ≡ none) ⊎ (str_eq offset "" ≡ true)) (parse_cursor env v offset)
  unfolding parse_cursor bad_request
  parse_cursor-Passes v offset =
      Passes-if (λ c. (c ≡ none) ⊎ (str_eq offset "" ≡ true)) (str_eq v "") (good none) _
        (λ _. inl refl)
        (λ _.
          Passes-if (λ c. (c ≡ none) ⊎ (str_eq offset "" ≡ true)) (str_eq offset "")
            (cursor_of env (decode_cursor env v)) _
            (λ e.
              Passes-weaken (λ c. Unit) (λ c. (c ≡ none) ⊎ (str_eq offset "" ≡ true))
                (cursor_of env (decode_cursor env v)) (cursor_of-Passes (decode_cursor env v))
                (λ c _. inr e))
            (λ _. ("cursor and offset are mutually exclusive", refl)))

  -- The checks of a request's parameters, for a positive ceiling of rows, end with a 400 or with
  -- parameters that keep to the bounds: the limit is between 1 and the ceiling, and with a cursor
  -- the offset is 0.
  pub parse_query-IsChecked :
      (max_rows : ℕ) (req : Request)
      → 0 < max_rows
      → Passes (IsChecked max_rows) (parse_query env max_rows req)
  unfolding parse_query
  parse_query-IsChecked max_rows req p =
      let Q : Query Time → Type 0 = IsChecked max_rows in
      Passes-bind (λ t. Unit) Q _ _ (parse_bound-Passes _ req.start_time)
        (λ start _.
          Passes-bind (λ t. Unit) Q _ _ (parse_bound-Passes _ req.end_time)
            (λ end _.
              Passes-bind (λ n. (0 < n) × (n ≤ max_rows)) Q _ _
                (parse_limit-Passes max_rows req.limit p)
                (λ limit within.
                  Passes-bind (λ n. (n ≡ 0) ⊎ (str_eq req.offset "" ≡ false)) Q _ _
                    (parse_offset-Passes req.offset)
                    (λ offset given.
                      Passes-bind (λ c. (c ≡ none) ⊎ (str_eq req.offset "" ≡ true)) Q _ _
                        (parse_cursor-Passes req.cursor req.offset)
                        (λ cursor alone.
                          (within.0, within.1, exclusive offset cursor given alone))))))
    where
      exclusive :
          (offset : ℕ) (cursor : Option (TelemetryCursor Time))
          → (offset ≡ 0) ⊎ (str_eq req.offset "" ≡ false)
          → (cursor ≡ none) ⊎ (str_eq req.offset "" ≡ true)
          → (cursor ≡ none) ⊎ (offset ≡ 0)
      exclusive offset cursor given (inl h) = inl h
      exclusive offset cursor (inl h) (inr k) = inr h
      exclusive offset cursor (inr h) (inr k) = absurd (ground (arith, h, k))
