-- ===== src/DeepCopy/Items.antt =====
-- The copy of the items of a list is deep, if the copy of an item is.
use mathlib.Core.Path.{subst}
use cluster_api_provider_bmc.Base.{
  ◌≡◌, ◌∙◌, ap, sym, refl, arith, ℕ, ◌≤◌, Option, none, some, List, [], ◌∷◌, nat_eq,
}
use cluster_api_provider_bmc.DeepCopy.Objects.{Pointer}
use cluster_api_provider_bmc.DeepCopy.Heap.{Cell, Heap, Copying, allocate, write}
use cluster_api_provider_bmc.DeepCopy.Copy.{copy_each, copy_items}
use cluster_api_provider_bmc.DeepCopy.Laws.{
  Agree, Extends, View, Region, IsLocal, IsDeep, CellWithin,
}
use cluster_api_provider_bmc.DeepCopy.Compose.{Extends-trans, kept, still}

abbrev pub AllWithin : {E : Type 0} → Region E → Region (List E)
AllWithin P lo hi h [] = Unit
AllWithin P lo hi h (x ∷ xs) = P lo hi h x × AllWithin P lo hi h xs

abbrev pub view_each : {E V : Type 0} → View E V → View (List E) (List V)
view_each v h [] = []
view_each v h (x ∷ xs) = v h x ∷ view_each v h xs

-- Items lie in an array, and each of them reaches further cells.
abbrev pub view_items : {E V : Type 0} → (Cell → List E) → View E V → View Pointer (Option (List V))
view_items items v h none = none
view_items items v h (some p) = some (view_each v h (items (h.cell p)))

abbrev pub ItemsWithin : {E : Type 0} → (Cell → List E) → Region E → Region Pointer
ItemsWithin items P lo hi h none = Unit
ItemsWithin items P lo hi h (some p) =
    CellWithin lo hi h (some p) × AllWithin P lo hi h (items (h.cell p))

module _ {E V : Type 0} {v : View E V} {P : Region E} where
  pub each-IsLocal : IsLocal v P → IsLocal (view_each v) (AllWithin P)
  each-IsLocal L = record { stays = stays; widen = widen }
    where
      stays :
          (xs : List E) (lo hi : ℕ) (h h' : Heap)
          → Agree lo hi h h'
          → AllWithin P lo hi h xs
          → (view_each v h' xs ≡ view_each v h xs) × AllWithin P lo hi h' xs
      stays [] lo hi h h' agree w = (refl, tt)
      stays (x ∷ xs) lo hi h h' agree (wx, ws) =
          let (e, k) = L.stays x lo hi h h' agree wx in
          let (es, ks) = stays xs lo hi h h' agree ws in (λ i. e i ∷ es i, (k, ks))

      widen :
          (xs : List E) (lo hi lo' hi' : ℕ) (h : Heap)
          → lo' ≤ lo
          → hi ≤ hi'
          → AllWithin P lo hi h xs
          → AllWithin P lo' hi' h xs
      widen [] lo hi lo' hi' h l u w = tt
      widen (x ∷ xs) lo hi lo' hi' h l u (wx, ws) =
          (L.widen x lo hi lo' hi' h l u wx, widen xs lo hi lo' hi' h l u ws)

  module _ {f : E → Copying E} (F : IsDeep v P f) where
    each-grows : (xs : List E) (h : Heap) → Extends h (copy_each f xs h).1
    unfolding copy_each
    each-grows [] h = (omega arith, λ p l u. refl)
    each-grows (x ∷ xs) h =
        Extends-trans h (f x h).1 (copy_each f xs (f x h).1).1 (F.grows x h)
          (each-grows xs (f x h).1)

    each-same :
        (xs : List E) (h : Heap)
        → AllWithin P 0 h.next h xs
        → view_each v (copy_each f xs h).1 (copy_each f xs h).0 ≡ view_each v h xs
    unfolding copy_each
    each-same [] h w = refl
    each-same (x ∷ xs) h (wx, ws) =
        let h1 = (f x h).1 in
        let h2 = (copy_each f xs h1).1 in
        let (e, k) = still (each-IsLocal F.local) xs h h1 (F.grows x h) ws in
        let first = (kept F x h h2 (each-grows xs h1) wx).0 in
        let others = each-same xs h1 k ∙ e in (λ i. first i ∷ others i)

    each-fresh :
        (xs : List E) (h : Heap)
        → AllWithin P 0 h.next h xs
        → AllWithin P h.next (copy_each f xs h).1.next (copy_each f xs h).1 (copy_each f xs h).0
    unfolding copy_each
    each-fresh [] h w = tt
    each-fresh (x ∷ xs) h (wx, ws) =
        let h1 = (f x h).1 in
        let h2 = (copy_each f xs h1).1 in
        let L = each-IsLocal F.local in
        let (e, k) = still L xs h h1 (F.grows x h) ws in
        (
          (kept F x h h2 (each-grows xs h1) wx).1,
          L.widen (copy_each f xs h1).0 h1.next h2.next h.next h2.next h2 (F.grows x h).0
              (omega arith) (each-fresh xs h1 k),
        )

    pub each-IsDeep : IsDeep (view_each v) (AllWithin P) (copy_each f)
    each-IsDeep = record {
      local = each-IsLocal F.local;
      grows = each-grows;
      same = each-same;
      fresh = each-fresh;
    }

  module _ (items : Cell → List E) where
    items-IsLocal : IsLocal v P → IsLocal (view_items items v) (ItemsWithin items P)
    items-IsLocal L = record { stays = stays; widen = widen }
      where
        stays :
            (a : Pointer) (lo hi : ℕ) (h h' : Heap)
            → Agree lo hi h h'
            → ItemsWithin items P lo hi h a
            → (view_items items v h' a ≡ view_items items v h a) × ItemsWithin items P lo hi h' a
        stays none lo hi h h' agree w = (refl, tt)
        stays (some p) lo hi h h' agree (wp, ws) =
            let same_array = ap items (agree p wp.0 wp.1) in
            let (e, k) = (each-IsLocal L).stays (items (h.cell p)) lo hi h h' agree ws in
            (
              ap (λ xs. some (view_each v h' xs)) same_array ∙ ap some e,
              (wp, subst (AllWithin P lo hi h') (sym same_array) k),
            )

        widen :
            (a : Pointer) (lo hi lo' hi' : ℕ) (h : Heap)
            → lo' ≤ lo
            → hi ≤ hi'
            → ItemsWithin items P lo hi h a
            → ItemsWithin items P lo' hi' h a
        widen none lo hi lo' hi' h l u w = tt
        widen (some p) lo hi lo' hi' h l u (wp, ws) =
            (omega arith, (each-IsLocal L).widen (items (h.cell p)) lo hi lo' hi' h l u ws)

    module _ (array : List E → Cell) (items_array : (xs : List E) → items (array xs) ≡ xs)
        {f : E → Copying E} (F : IsDeep v P f) where
      items-grows : (a : Pointer) (h : Heap) → Extends h (copy_items items array f a h).1
      unfolding copy_items allocate write
      items-grows none h = (omega arith, λ p l u. refl)
      items-grows (some p) h =
          let h1 = (allocate (array []) h).1 in
          let grown = each-grows F (items (h.cell p)) h1 in
          (omega (arith, grown.0), λ r l u. ground (arith, grown.1 r l (omega arith)))

      -- The array's cell is not among those that its items reach.
      items-filled :
          (p : ℕ) (h : Heap)
          → ItemsWithin items P 0 h.next h (some p)
          → (view_items items v
                (copy_items items array f (some p) h).1
                (copy_items items array f (some p) h).0
              ≡ view_items items v h (some p))
            × ItemsWithin items P h.next
                (copy_items items array f (some p) h).1.next
                (copy_items items array f (some p) h).1
                (copy_items items array f (some p) h).0
      unfolding copy_items allocate write
      items-filled p h (wp, ws) =
          let L = each-IsLocal F.local in
          let xs = items (h.cell p) in
          let h1 = (allocate (array []) h).1 in
          let (ys, h2) = copy_each f xs h1 in
          let h3 = write h.next (array ys) h2 in
          let grown = each-grows F xs h1 in
          let made : Extends h h1 = (omega arith, λ r l u. ground arith) in
          let (e, k) = still L xs h h1 made ws in
          let (e3, k3) =
            L.stays ys h1.next h2.next h2 h3 (λ r l u. ground arith) (each-fresh F xs h1 k) in
          let inside : items (h3.cell h.next) ≡ ys = ap items (ground arith) ∙ items_array ys in
          (
            ap (λ zs. some (view_each v h3 zs)) inside ∙ ap some (e3 ∙ each-same F xs h1 k ∙ e),
            (
              omega (arith, grown.0),
              subst (AllWithin P h.next h3.next h3) (sym inside)
                  (L.widen ys h1.next h2.next h.next h3.next h3 (omega arith) (omega arith) k3),
            ),
          )

      pub copy_items-IsDeep :
          IsDeep (view_items items v) (ItemsWithin items P) (copy_items items array f)
      unfolding copy_items
      copy_items-IsDeep = record {
        local = items-IsLocal F.local;
        grows = items-grows;
        same = same;
        fresh = fresh;
      }
        where
          same :
              (a : Pointer) (h : Heap)
              → ItemsWithin items P 0 h.next h a
              → view_items items v (copy_items items array f a h).1 (copy_items items array f a h).0
                ≡ view_items items v h a
          same none h w = refl
          same (some p) h w = (items-filled p h w).0

          fresh :
              (a : Pointer) (h : Heap)
              → ItemsWithin items P 0 h.next h a
              → ItemsWithin items P h.next
                  (copy_items items array f a h).1.next
                  (copy_items items array f a h).1
                  (copy_items items array f a h).0
          fresh none h w = tt
          fresh (some p) h w = (items-filled p h w).1
