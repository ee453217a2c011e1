-- ===== src/Collector/Persist.antt =====
-- Bisection in internal/collector/collector.go, against a database that behaves as documented.
use vantage.Prelude.{
  All-take, All-drop, ℕ, zero, suc, ◌+◌, ◌/◌, ◌<◌, ◌≡◌, refl, ap, sym, ◌∙◌, inl, inr, true, false,
  List, [], ◌∷◌, ◌++◌, none, some, length, take, drop, arith, Run, ok, ◌>>=◌, Returns, Bool-cases,
  take-drop, length-take, length-drop, append_assoc, if◌then◌else◌, ◌==◌, ltb, load, load-ok, subst,
  indicator,
}
use vantage.Prelude.Weigh.{count, weigh-append}
use vantage.Message.{TelemetryMessage}
use vantage.Collector.{
  DbError, db_failed, Env, dead_letter_row, Persisted, one_dead, second_half, isolate, after_batch,
  persist_loop, persist_resilient,
}
use vantage.Collector.Healthy.{
  AllStorable, upsert_all, Healthy, is_poisonous, landing, buried, Landed, Lands, landing-append,
  buried-append, upsert_all-append, persist_batch_clean, persist_batch_poisoned,
  dead_letter_row-buried,
}

module _ {Time S T : Type 0} (env : Env Time S) (h : Healthy T env) where
  -- The outcome of two halves, one after the other.
  Landed-append :
      (s : S) (xs ys : List TelemetryMessage) (a b : ℕ) (s₁ s₂ : S)
      → Landed env h s xs (a, none, s₁)
      → Landed env h s₁ ys (b, none, s₂)
      → Landed env h s (xs ++ ys) (a + b, none, s₂)
  Landed-append s xs ys a b s₁ s₂ (n₁, _, d₁, t₁) (n₂, _, d₂, t₂) = (
    omega (arith, n₁, n₂, weigh-append (λ m. indicator (is_poisonous env h m)) xs ys),
    refl,
    d₂
        ∙ ap (λ z. z ++ buried env h ys) d₁
        ∙ append_assoc (h.dead s) (buried env h xs) (buried env h ys)
        ∙ ap (λ z. h.dead s ++ z) (sym (buried-append env h xs ys)),
    t₂
        ∙ ap (λ z. upsert_all h.upsert z (landing env h ys)) t₁
        ∙ sym (upsert_all-append env h (h.table s) (landing env h xs) (landing env h ys))
        ∙ ap (upsert_all h.upsert (h.table s)) (sym (landing-append env h xs ys)),
  )

  -- A single poisonous message is dead-lettered.
  single_dead :
      (s s' : S) (m : TelemetryMessage) (cause : DbError)
      → is_poisonous env h m ≡ true
      → h.storable (h.encode m) ≡ true
      → h.dead s' ≡ h.dead s
      → h.table s' ≡ h.table s
      → Lands env h s (m ∷ []) (ok (one_dead env (dead_letter_row env s' m cause)))
  unfolding one_dead
  single_dead s s' m cause bad fits d t =
      let (s'', e, d', t') = dead_letter_row-buried env h s' m cause fits in
      (
        1,
        s'',
        ap (λ o. ok (one_dead env o)) e,
        (
          ground (arith, bad),
          refl,
          ground (arith, bad, d' ∙ ap (λ z. z ++ (m.id, m.delivery_attempts, h.encode m) ∷ []) d),
          ground (arith, bad, t' ∙ t),
        ),
      )

  -- The two halves, when each is known to land.
  halves_land :
      (again : S → List TelemetryMessage → Run (Persisted env)) (s : S)
      (xs ys : List TelemetryMessage)
      → ((s : S) → Lands env h s xs (again s xs))
      → ((s : S) → Lands env h s ys (again s ys))
      → Lands env h s (xs ++ ys) (again s xs >>= second_half env again ys)
  unfolding second_half
  halves_land again s xs ys first second =
      let (a, s₁, e₁, l₁) = first s in
      let (b, s₂, e₂, l₂) = second s₁ in
      (
        a + b,
        s₂,
        ap (λ o. o >>= second_half env again ys) e₁
            ∙ ap (λ o. o >>= (λ r. ok (a + r.0, r.1, r.2))) e₂,
        Landed-append s xs ys a b s₁ s₂ l₁ l₂,
      )

  -- From a state that shows the same, a batch lands in the same way.
  Lands-from :
      (s s' : S) (ms : List TelemetryMessage) (o : Run (Persisted env))
      → h.dead s' ≡ h.dead s
      → h.table s' ≡ h.table s
      → Lands env h s' ms o
      → Lands env h s ms o
  Lands-from s s' ms o d t (n, s₁, e, (c, q, d₁, t₁)) = (
    n,
    s₁,
    e,
    (
      c,
      q,
      d₁ ∙ ap (λ z. z ++ buried env h ms) d,
      t₁ ∙ ap (λ z. upsert_all h.upsert z (landing env h ms)) t,
    ),
  )

  isolate-Lands :
      (again : S → List TelemetryMessage → Run (Persisted env)) (s : S) (ms : List TelemetryMessage)
      (e : DbError)
      → ((s : S) (xs : List TelemetryMessage)
          → length xs < length ms
          → AllStorable env h xs
          → Lands env h s xs (again s xs))
      → 0 < count (is_poisonous env h) ms
      → AllStorable env h ms
      → Lands env h s ms (isolate env again s ms e)
  unfolding isolate
  isolate-Lands again s [] e ih bad fits = absurd (omega arith)
  isolate-Lands again s (m ∷ []) e ih bad (fits, _) =
      let poison : is_poisonous env h m ≡ true = ground (arith, bad) in
      let (n, s', eq, l) = single_dead s s m e poison (fits poison) refl refl in
      (
        n,
        s',
        ap (λ o. o >>= (λ m. ok (one_dead env (dead_letter_row env s m e))))
              (load-ok (m ∷ []) 0 refl)
            ∙ eq,
        l,
      )
  isolate-Lands again s (m ∷ m' ∷ ms) e ih bad fits =
      let all = m ∷ m' ∷ ms in
      let Fits : TelemetryMessage → Type 0 =
        λ m. is_poisonous env h m ≡ true → h.storable (h.encode m) ≡ true in
      let k = length all / 2 in
      let half : (k < length all) × (0 < k) = (omega arith, omega arith) in
      let several : (length all == 1) ≡ false = ground arith in
      let (n, s', eq, l) =
        subst (λ zs. Lands env h s zs (again s (take k all) >>= second_half env again (drop k all)))
          (take-drop k all)
          (halves_land again s (take k all) (drop k all)
            (λ s.
              ih s (take k all) (omega (arith, length-take k all, half)) (All-take Fits k all fits))
            (λ s.
              ih s (drop k all) (omega (arith, length-drop k all, half))
                (All-drop Fits k all fits))) in
      (
        n,
        s',
        ap
              (λ q.
                if q
                then (load all 0 >>= (λ m. ok (one_dead env (dead_letter_row env s m e))))
                else (again s (take k all) >>= second_half env again (drop k all)))
              several
            ∙ eq,
        l,
      )

  persist_loop-Lands :
      (fuel : ℕ) (s : S) (ms : List TelemetryMessage)
      → length ms < fuel
      → AllStorable env h ms
      → Lands env h s ms (persist_loop env fuel s ms)
  unfolding persist_loop after_batch
  persist_loop-Lands zero s ms short fits = absurd (omega arith)
  persist_loop-Lands (suc fuel) s ms short fits =
      elim (Bool-cases (ltb 0 (count (is_poisonous env h) ms))) [
        | inl some_bad ↦
            let (e, s', eq, p, d, t) = persist_batch_poisoned env h s ms (ground arith) in
            let (n, s₁, e₁, l) =
              Lands-from s s' ms (isolate env (persist_loop env fuel) s' ms e) d t (
                isolate-Lands (persist_loop env fuel) s' ms e
                  (λ s xs shorter fits.
                    persist_loop-Lands fuel s xs (omega (arith, short, shorter)) fits)
                  (ground arith) fits) in
            (
              n,
              s₁,
              ap (after_batch env (persist_loop env fuel) ms) eq
                  ∙ ap
                      (λ q.
                        if q
                        then isolate env (persist_loop env fuel) s' ms e
                        else ok (0, some (db_failed e), s'))
                      p
                  ∙ e₁,
              l,
            )
        | inr clean ↦
            let (s', eq, l) = persist_batch_clean env h s ms (ground arith) in
            (0, s', ap (after_batch env (persist_loop env fuel) ms) eq, l)
      ]

  -- While the database behaves as documented and the payload of every poisonous message is storable
  -- as JSONB, `persistResilient` ends within its fuel, without an error, for a batch of any size:
  -- every poisonous message stands in the dead-letter table, once and in the batch's order, the row
  -- of every other message that parses is upserted, in that order, and the result is the number of
  -- poisonous messages.
  pub persist_resilient-Landed :
      (s : S) (ms : List TelemetryMessage)
      → AllStorable env h ms
      → Returns (Landed env h s ms) (persist_resilient env s ms)
  unfolding persist_resilient
  persist_resilient-Landed s ms fits =
      let (n, s', e, l) = persist_loop-Lands (length ms + 1) s ms (omega arith) fits in
      ((n, none, s'), e, l)
