-- ===== src/Database/Keyset.antt =====
-- The keyset pages of pkg/db/read.go.
use Prim.Native.String.{String}
use vantage.Prelude.{
  ℕ, ◌≡◌, refl, ap, sym, ◌∙◌, Bool, true, false, ◌&&◌, List, [], ◌∷◌, ◌++◌, Option, some, subst,
  take, if◌then◌else◌, arith,
}
use vantage.Prelude.Int.{pos}
use vantage.Prelude.Order.{
  filter, order, IsStrict, IsOrdered, IsKeyed, order-IsOrdered, order-IsKeyed, filter-order,
  filter_after,
}
use vantage.Collector.{GpuMetric}
use vantage.Database.{
  Pool, Dialect, Call, page_call, newer, in_window, limited, select_rows, query, on_table,
  telemetry_after,
}

-- The types' comparisons are strict orders.
pub record IsDialect {Time : Type 0} (sql : Dialect Time) : Type 0 where
  pub earlier : IsStrict sql.earlier
  pub collates : IsStrict sql.collates

filter_and :
    {A : Type 0} (p q : A → Bool) (xs : List A)
    → filter (λ x. p x && q x) xs ≡ filter q (filter p xs)
filter_and p q [] = refl
filter_and p q (x ∷ xs) = go (filter_and p q xs) (p x)
  where
    go :
        filter (λ x. p x && q x) xs ≡ filter q (filter p xs)
        → (b : Bool)
        → (if b && q x then x ∷ filter (λ x. p x && q x) xs else filter (λ x. p x && q x) xs)
          ≡ filter q (if b then x ∷ filter p xs else filter p xs)
    go rest true = ap (λ zs. if q x then x ∷ zs else zs) rest
    go rest false = rest

module _ {Time : Type 0} (sql : Dialect Time) where
  -- A statement on the rows that the table holds.
  pub query-held :
      {B : Type 0} (pool : Pool Time) (call : Call) (statement : List (GpuMetric Time) → Option B)
      (rows : List (GpuMetric Time))
      → pool.table call ≡ some rows
      → query sql pool call statement ≡ statement rows
  unfolding query on_table
  query-held pool call statement rows held = ap (on_table sql statement) held

module _ {Time : Type 0} (sql : Dialect Time) (laws : IsDialect sql) where
  pub newer-IsStrict : IsStrict (newer sql)
  newer-IsStrict = record {
    asym = λ x y h. ground (
      arith,
      laws.earlier.asym x.timestamp y.timestamp,
      laws.earlier.asym y.timestamp x.timestamp,
      laws.collates.asym y.metric_name x.metric_name,
    );
    not_trans = λ x y z h k.
        let e = laws.earlier.not_trans in
        let c = laws.collates.not_trans in
        grind (
          arith,
          h,
          k,
          e z.timestamp y.timestamp x.timestamp,
          e x.timestamp z.timestamp y.timestamp,
          e y.timestamp x.timestamp z.timestamp,
          c z.metric_name y.metric_name x.metric_name,
        );
  }

  -- The page after a row is the rest of the rows that follow it in the order.
  pub telemetry_after-rest :
      (pool : Pool Time) (id : String) (start end : Option Time) (limit : ℕ)
      (rows before after : List (GpuMetric Time)) (last : GpuMetric Time)
      → pool.table page_call ≡ some rows
      → IsKeyed (newer sql) (filter (in_window sql id start end) rows)
      → order (newer sql) (filter (in_window sql id start end) rows) ≡ before ++ last ∷ after
      → telemetry_after sql pool id start end last.timestamp last.metric_name (pos limit)
        ≡ some (take limit after)
  unfolding telemetry_after limited select_rows
  telemetry_after-rest pool id start end limit rows before after last held keyed split =
      let lt = newer sql in
      let w = in_window sql id start end in
      let strict = newer-IsStrict in
      let rest : select_rows sql (λ row. w row && lt last row) rows ≡ after =
        ap (order lt) (filter_and w (lt last) rows)
        ∙ sym (filter-order lt strict (lt last) (filter w rows))
        ∙ ap (filter (lt last)) split
        ∙ filter_after lt strict before last after
            (subst (IsOrdered lt) split (order-IsOrdered lt strict (filter w rows)))
            (subst (IsKeyed lt) split (order-IsKeyed lt (filter w rows) keyed)) in
      query-held sql pool page_call
        (λ rows. limited sql (pos limit) 0 (select_rows sql (λ row. w row && lt last row) rows))
        rows held
      ∙ ap (limited sql (pos limit) 0) rest
