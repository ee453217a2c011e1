-- ===== src/Streamer/Rows/Prefix.antt =====
-- What a pass of internal/streamer/streamer.go over the CSV file publishes, however it ends.
use Prim.Native.String.{String}
use vantage.Prelude.{
  take, drop, take-drop, length-take, ℕ, ◌+◌, ◌≤◌, ◌<◌, ◌≡◌, refl, ap, sym, subst, ◌∙◌, Bool, true,
  false, ◌&&◌, List, [], ◌∷◌, ◌++◌, append-nil, append_assoc, Option, none, some, ltb, leb, length,
  if◌then◌else◌, ok, ◌>>=◌, Returns, arith, length-append,
}
use vantage.Message.{TelemetryMessage}
use vantage.Streamer.Rows.{
  keep, Row, Pass, PassEnd, going, interrupted, row_message, publish, clear_batch, flush_of,
  flush_batch, sleep, send_message, send_row, read_rows,
}
use vantage.Streamer.Rows.Sized.{
  messages, concat, AllSized, concat-snoc, AllSized-snoc, call_size, call_size_pos, call_size-le,
  call_size_one, nil_of, messages_cons,
}

-- What each row comes to: a message, or a skip.
abbrev pub AllParsed : (String → Option ℕ) → List Row → List (Option TelemetryMessage) → Type 0
AllParsed parse_float [] [] = Unit
AllParsed parse_float [] (m ∷ ms) = ⊥
AllParsed parse_float (row ∷ rows) [] = ⊥
AllParsed parse_float (row ∷ rows) (m ∷ ms) =
    (row_message parse_float row ≡ ok m) × AllParsed parse_float rows ms

-- Where a pass is, when `read` messages have come: they were published, in calls of the right size,
-- and the last of them are in the batch; or an interruption has left some.
abbrev pub Goes : ℕ → List TelemetryMessage → PassEnd → Type 0
Goes size read (going p) =
    (concat p.published ++ p.batch ≡ read)
    × AllSized (call_size size) p.published
    × (length p.batch < call_size size)
Goes size read (interrupted p) =
    (left : List TelemetryMessage) × (concat p.published ++ left ≡ read)
    × AllSized (call_size size) p.published

Goes-more :
    (size : ℕ) (read more : List TelemetryMessage) (p : Pass)
    → Goes size read (interrupted p)
    → Goes size (read ++ more) (interrupted p)
Goes-more size read more p (left, same, sized) = (
  left ++ more,
  sym (append_assoc (concat p.published) left more) ∙ ap (λ zs. zs ++ more) same,
  sized,
)

module _ (parse_float : String → Option ℕ) (breaks : ℕ → Option ℕ) (delay size : ℕ) where
  -- A flush publishes the batch, or is interrupted.
  abbrev pub Flushed : List TelemetryMessage → PassEnd → Type 0
  Flushed read (going p) = Goes size read (going p) × (p.batch ≡ [])
  Flushed read (interrupted p) = Goes size read (interrupted p)

  concat-keep :
      (xs : List TelemetryMessage) (bs : List (List TelemetryMessage))
      → concat (keep parse_float breaks delay size xs bs) ≡ concat bs ++ xs
  unfolding keep
  concat-keep [] bs = sym (append-nil (concat bs))
  concat-keep (x ∷ xs) bs = concat-snoc bs (x ∷ xs)

  AllSized-keep :
      (n : ℕ) (xs : List TelemetryMessage) (bs : List (List TelemetryMessage))
      → AllSized n bs
      → length xs ≤ n
      → AllSized n (keep parse_float breaks delay size xs bs)
  unfolding keep
  AllSized-keep n [] bs all le = all
  AllSized-keep n (x ∷ xs) bs all le = AllSized-snoc n bs (x ∷ xs) all (omega arith) le

  -- A call that breaks off has published a first part of its messages.
  abbrev broken : ℕ → List TelemetryMessage → Pass → PassEnd
  broken k b p = interrupted (record p {
    calls = p.calls + 1;
    published = keep parse_float breaks delay size (take k b) p.published;
  })

  broken-Goes :
      (k : ℕ) (b : List TelemetryMessage) (p : Pass) (read : List TelemetryMessage)
      → concat p.published ++ b ≡ read
      → AllSized (call_size size) p.published
      → length b ≤ call_size size
      → Goes size read (broken k b p)
  broken-Goes k b p read order sized short = (
    drop k b,
    ap (λ zs. zs ++ drop k b) (concat-keep (take k b) p.published)
        ∙ append_assoc (concat p.published) (take k b) (drop k b)
        ∙ ap (λ zs. concat p.published ++ zs) (take-drop k b)
        ∙ order,
    AllSized-keep (call_size size) (take k b) p.published sized
        (omega (arith, length-take k b, short)),
  )

  Flushed-Goes : (read : List TelemetryMessage) (e : PassEnd) → Flushed read e → Goes size read e
  Flushed-Goes read (going p) (goes, _) = goes
  Flushed-Goes read (interrupted p) goes = goes

  flush_of-Flushed :
      (b : List TelemetryMessage) (p : Pass) (read : List TelemetryMessage)
      → p.batch ≡ b
      → concat p.published ++ b ≡ read
      → AllSized (call_size size) p.published
      → length b ≤ call_size size
      → Flushed read (flush_of parse_float breaks delay size b p)
  unfolding flush_of clear_batch publish
  flush_of-Flushed [] p read e order sized short = (
    (
      ap (λ b. concat p.published ++ b) e ∙ order,
      sized,
      subst (λ b. length b < call_size size) (sym e) (call_size_pos size),
    ),
    e,
  )
  flush_of-Flushed (m ∷ ms) p read e order sized short =
      elim (breaks p.calls)
        as (λ q. Flushed read (
          clear_batch parse_float breaks delay size (elim q [
            | none ↦
                going (record p { calls = p.calls + 1; published = p.published ++ (m ∷ ms) ∷ [] })
            | some k ↦ broken k (m ∷ ms) p
          ]))) [
            | none ↦ (
              (
                append-nil (concat (p.published ++ (m ∷ ms) ∷ []))
                    ∙ concat-snoc p.published (m ∷ ms)
                    ∙ order,
                AllSized-snoc (call_size size) p.published (m ∷ ms) sized (omega arith) short,
                call_size_pos size,
              ),
              refl,
            )
            | some k ↦ broken-Goes k (m ∷ ms) p read order sized short
          ]

  send_message-Goes :
      (m : TelemetryMessage) (p : Pass) (read : List TelemetryMessage)
      → Goes size read (going p)
      → Goes size (read ++ m ∷ []) (send_message parse_float breaks delay size m p)
  unfolding send_message flush_batch publish
  send_message-Goes m p read (order, sized, short) =
      split (leb size 1) refl (breaks p.calls) (leb size (length (p.batch ++ m ∷ []))) refl
    where
      p₁ : Pass
      p₁ = record p { batch = p.batch ++ m ∷ [] }

      grown : concat p.published ++ (p.batch ++ m ∷ []) ≡ read ++ m ∷ []
      grown =
          sym (append_assoc (concat p.published) p.batch (m ∷ [])) ∙ ap (λ zs. zs ++ m ∷ []) order

      split :
          (single : Bool)
          → leb size 1 ≡ single
          → (taken : Option ℕ) (filled : Bool) → leb size (length (p.batch ++ m ∷ [])) ≡ filled
          → Goes size (read ++ m ∷ []) (
              if single
              then (elim taken [
                | none ↦
                    going
                      (record p { calls = p.calls + 1; published = p.published ++ (m ∷ []) ∷ [] })
                | some k ↦ broken k (m ∷ []) p
              ])
              else if filled
              then flush_of parse_float breaks delay size (p.batch ++ m ∷ []) p₁
              else going p₁)
      split true one none filled f =
          let none_kept : p.batch ≡ [] =
            nil_of p.batch (call_size size) (call_size_one size one) short in
          (
            ap (λ b. concat (p.published ++ (m ∷ []) ∷ []) ++ b) none_kept
                ∙ append-nil (concat (p.published ++ (m ∷ []) ∷ []))
                ∙ concat-snoc p.published (m ∷ [])
                ∙ ap (λ b. concat p.published ++ (b ++ m ∷ [])) (sym none_kept)
                ∙ grown,
            AllSized-snoc (call_size size) p.published (m ∷ []) sized (omega arith)
                (omega (arith, call_size_pos size)),
            short,
          )
      split true one (some k) filled f =
          let none_kept : p.batch ≡ [] =
            nil_of p.batch (call_size size) (call_size_one size one) short in
          broken-Goes k (m ∷ []) p (read ++ m ∷ [])
            (ap (λ b. concat p.published ++ (b ++ m ∷ [])) (sym none_kept) ∙ grown) sized
            (omega (arith, call_size_pos size))
      split false several taken true f =
          Flushed-Goes (read ++ m ∷ [])
            (flush_of parse_float breaks delay size (p.batch ++ m ∷ []) p₁)
            (flush_of-Flushed (p.batch ++ m ∷ []) p₁ (read ++ m ∷ []) refl grown sized
              (omega (arith, short, length-append p.batch (m ∷ []))))
      split false several taken false f =
          (grown, sized, ground (arith, f, several, call_size-le size))

  sleep-Goes :
      (q : Bool) (e : PassEnd) (read : List TelemetryMessage)
      → Goes size read e
      → Goes size read (sleep parse_float breaks delay size q e)
  unfolding sleep
  sleep-Goes false e read goes = goes
  sleep-Goes true (going p) read (order, sized, short) = (p.batch, order, sized)
  sleep-Goes true (interrupted p) read goes = goes

  send_row-Goes :
      (cut : Bool) (m : Option TelemetryMessage) (p : Pass) (read : List TelemetryMessage)
      → Goes size read (going p)
      → Goes size (read ++ messages (m ∷ [])) (send_row parse_float breaks delay size cut m p)
  unfolding send_row
  send_row-Goes cut none p read (order, sized, short) =
      (order ∙ sym (append-nil read), sized, short)
  send_row-Goes cut (some m) p read goes =
      sleep-Goes (ltb 0 delay && cut) (send_message parse_float breaks delay size m p)
        (read ++ m ∷ []) (send_message-Goes m p read goes)

  -- The rest of a pass.
  pub read_rows-Flushed :
      (rows : List Row) (ms : List (Option TelemetryMessage)) (e : PassEnd)
      (read : List TelemetryMessage)
      → AllParsed parse_float rows ms
      → Goes size read e
      → Returns (Flushed (read ++ messages ms)) (read_rows parse_float breaks delay size rows e)
  unfolding read_rows flush_batch
  read_rows-Flushed rows ms (interrupted p) read all goes =
      (interrupted p, refl, Goes-more size read (messages ms) p goes)
  read_rows-Flushed [] [] (going p) read all (order, sized, short) = (
    flush_of parse_float breaks delay size p.batch p,
    refl,
    flush_of-Flushed p.batch p (read ++ []) refl (order ∙ sym (append-nil read)) sized
        (omega (arith, short)),
  )
  read_rows-Flushed [] (m ∷ ms) (going p) read all goes = absurd all
  read_rows-Flushed (row ∷ rows) [] (going p) read all goes = absurd all
  read_rows-Flushed (row ∷ rows) (m ∷ ms) (going p) read (here, all) goes =
      let (e, run, flushed) =
        read_rows-Flushed rows ms (send_row parse_float breaks delay size row.cut m p)
          (read ++ messages (m ∷ [])) all (send_row-Goes row.cut m p read goes) in
      (
        e,
        ap
              (λ o. o >>= (λ m.
                read_rows parse_float breaks delay size rows
                  (send_row parse_float breaks delay size row.cut m p)))
              here
            ∙ run,
        subst (λ zs. Flushed zs e) (messages_cons read m ms) flushed,
      )
