-- ===== src/Queue/Broker/Dlq/Listing.antt =====
-- `DLQList` of internal/queue/broker.go.
use vantage.Prelude.{
  ℕ, zero, suc, ◌+◌, ◌≤◌, ◌≡◌, refl, ap, sym, ◌∙◌, List, [], ◌∷◌, some, length, take, drop, map,
  get_elem?, get_elem?-some, arith, ok, ◌>>=◌, deref,
}
use vantage.Prelude.Int.{ℤ, pos, negsuc}
use vantage.Queue.Ring.{Ring, contents}
use vantage.Queue.Ring.Refine.{IsRing, load-contents, count-contents}
use vantage.Queue.Broker.{DlqItem, Broker}
use vantage.Queue.Broker.Lanes.{IsValid}
use vantage.Queue.Broker.Dlq.{entry_of, list_loop, list_size, dlq_list}

-- The first value of a tail that is not empty.
drop_cons :
    {A : Type 0} (i : ℕ) (xs : List A) (x : A)
    → get_elem? xs i ≡ some x
    → drop i xs ≡ x ∷ drop (i + 1) xs
drop_cons i [] x e = ground arith
drop_cons zero (y ∷ ys) x e = ground (arith, e)
drop_cons (suc i) (y ∷ ys) x e =
    let at : suc i + 1 ≡ suc (i + 1) = omega arith in
    drop_cons i ys x e ∙ ap (λ j. x ∷ drop j (y ∷ ys)) (sym at)

list_loop-take :
    (c : ℕ) (r : Ring DlqItem) (i n : ℕ)
    → IsRing c r
    → i + n ≤ length (contents r)
    → list_loop r i n ≡ ok (map entry_of (take n (drop i (contents r))))
unfolding list_loop
list_loop-take c r i zero v within = refl
list_loop-take c r i (suc n) v within =
    let (x, at) = get_elem?-some (contents r) i (omega arith) in
    let rest = list_loop-take c r (i + 1) n v (omega (arith, within)) in
    ap
      (λ o.
        o >>= (λ s. deref s >>= (λ it. list_loop r (i + 1) n >>= (λ es. ok (entry_of it ∷ es)))))
      (load-contents c r i x v at)
    ∙ ap (λ o. o >>= (λ es. ok (entry_of x ∷ es))) rest
    ∙ ap (λ zs. ok (map entry_of (take (suc n) zs))) (sym (drop_cons i (contents r) x at))

list_size_le : (n : ℕ) (limit : ℤ) → list_size n limit ≤ n
unfolding list_size
list_size_le n (pos zero) = omega arith
list_size_le n (pos (suc k)) = ground arith
list_size_le n (negsuc k) = omega arith

-- In a state that is in order `DLQList` never panics; it gives copies of the oldest dead messages,
-- oldest first, as many as the limit allows, and all if the limit is not positive.
pub dlq_list-take :
    (b : Broker) (limit : ℤ)
    → IsValid b
    → dlq_list b limit
      ≡ ok (map entry_of (take (list_size (length (contents b.dlq)) limit) (contents b.dlq)))
unfolding dlq_list
dlq_list-take b limit v =
    let counted = count-contents b.cfg.dlq_capacity b.dlq v.dlq_ring in
    list_loop-take b.cfg.dlq_capacity b.dlq 0 (list_size b.dlq.count limit) v.dlq_ring
      (omega (arith, list_size_le b.dlq.count limit, counted))
    ∙ ap (λ c. ok (map entry_of (take (list_size c limit) (contents b.dlq)))) counted
