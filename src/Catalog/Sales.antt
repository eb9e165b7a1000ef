-- ===== src/Catalog/Sales.antt =====
-- deleteProduct and the orders.
use kori_backend.Catalog.Calls.{exists-store}
use mathlib.Core.Path.{subst}
use kori_backend.Checkout.{product_is}
use kori_backend.Reconciliation.{is_orphan_grant, is_orphan}
use kori_backend.Catalog.Rows.{has_product}
use kori_backend.Constants.{nunca_cobrado}
use kori_backend.Catalog.{
  assert_product_exists, product_files, sold_units, delete_unsold, delete_rows, delete_product_row,
  delete_product,
}
use kori_backend.Prelude.{
  Bool, ◌==◌, mem_discard, sym, refl, inr, inl, discard, ◌&&◌, any, false, Bool-cases, ◌≡◌, Memᴰ,
  String,
}
use kori_backend.Database.{guarded, mapped, pure, ◌>>◌, rolled, Result-cases, Store, Prisma, Order}

abbrev HasOrder : Order → Store → Type 0
HasOrder o t = Memᴰ o t.orders

module _ (db : Prisma) (upper : String → String) where
  row-orders : (id : String) (s : Store) → (delete_product_row db upper id s).0.orders ≡ s.orders
  row-orders id s = elim (Bool-cases (any (has_product s.variants id) s.orders)) [
    | inl b ↦ rw b refl
    | inr b ↦ elim (Result-cases (db.product.delete (product_is id) s.products)) [
      | inl (t, q) ↦ rw b (rw q refl)
      | inr (e, q) ↦ rw b (rw q refl)
    ]
  ]

  -- An order that was charged, or may have been, is in the table after any attempt to delete a
  -- product, whatever its outcome.
  pub delete_product_keeps_sales :
      (id : String) (o : Order) (s : Store)
      → Memᴰ o s.orders
      → nunca_cobrado o ≡ false
      → Memᴰ o (delete_product db upper id s).0.orders
  unfolding delete_product
  delete_product_keeps_sales id o s m sold =
      guarded (HasOrder o) (assert_product_exists db upper id) (delete_unsold db upper id) s
        (exists-store db upper id s) m unsold
    where
      rows : HasOrder o (delete_rows db upper id s).0
      rows =
          let test : Order → Bool = λ o. nunca_cobrado o && has_product s.variants id o in
          let (orders, n) = db.order.delete_many test s.orders in
          let s1 = record s {
            orders = orders;
            jobs = discard (is_orphan orders s.orders) s.jobs;
            grants = discard (is_orphan_grant orders s.orders) s.grants;
          } in
          let spared : test o ≡ false = rw sold refl in
          let left : Memᴰ o orders =
            subst (λ r. Memᴰ o r.0) (sym (db.order.delete_many_lem test s.orders))
              (mem_discard test s.orders o m spared) in
          rolled (HasOrder o) (delete_product_row db upper id >> pure n) s s1 m (
            mapped (HasOrder o) (delete_product_row db upper id) (λ u. n) s1
              (subst (λ os. Memᴰ o os) (sym (row-orders id s1)) left))

      unsold : HasOrder o (delete_unsold db upper id s).0
      unsold = elim (Bool-cases (sold_units db upper id s == 0)) [
        | inr b ↦ rw b m
        | inl b ↦
            rw b
              (mapped (HasOrder o) (delete_rows db upper id) (product_files db upper id s) s rows)
      ]
