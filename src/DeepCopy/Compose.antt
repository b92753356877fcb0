-- ===== src/DeepCopy/Compose.antt =====
-- The copies of parts make up a deep copy of the whole: of a pair, of a struct, and of the items of
-- a list.
use cluster_api_provider_bmc.Base.{◌≡◌, ◌∙◌, ap, sym, arith, nat_eq}
use mathlib.Core.Path.{subst}
use cluster_api_provider_bmc.DeepCopy.Heap.{Heap, Copying, pure, ◌>>=◌}
use cluster_api_provider_bmc.DeepCopy.Laws.{Extends, View, Region, IsLocal, IsDeep}

pub Extends-trans : (h h1 h2 : Heap) → Extends h h1 → Extends h1 h2 → Extends h h2
Extends-trans h h1 h2 (n, kept) (m, kept') =
    (omega arith, λ p l u. kept' p l (omega arith) ∙ kept p l u)

abbrev pub view_both : {A B V W : Type 0} → View A V → View B W → View (A × B) (V × W)
view_both v w h (a, b) = (v h a, w h b)

abbrev pub BothWithin : {A B : Type 0} → Region A → Region B → Region (A × B)
BothWithin P Q lo hi h (a, b) = P lo hi h a × Q lo hi h b

abbrev pub copy_both : {A B : Type 0} → (A → Copying A) → (B → Copying B) → A × B → Copying (A × B)
copy_both f g (a, b) = do a' ← f a; b' ← g b; pure (a', b')

-- What a copy reads as and reaches, after more has been copied.
pub kept :
    {A V : Type 0} {v : View A V} {P : Region A} {f : A → Copying A}
    → IsDeep v P f
    → (a : A) (h h2 : Heap) → Extends (f a h).1 h2
    → P 0 h.next h a
    → (v h2 (f a h).0 ≡ v h a) × P h.next h2.next h2 (f a h).0
kept {f = f} F a h h2 grown w =
    let (a', h1) = f a h in
    let (e, k) =
      F.local.stays a' h.next h1.next h1 h2 (λ p l u. grown.1 p (omega arith) u) (F.fresh a h w) in
    (e ∙ F.same a h w, F.local.widen a' h.next h1.next h.next h2.next h2 (omega arith) grown.0 k)

-- What an original reads as and reaches, after something has been copied.
pub still :
    {B W : Type 0} {w : View B W} {Q : Region B}
    → IsLocal w Q
    → (b : B) (h h1 : Heap) → Extends h h1
    → Q 0 h.next h b
    → (w h1 b ≡ w h b) × Q 0 h1.next h1 b
still L b h h1 grown k =
    let (e, k') = L.stays b 0 h.next h h1 grown.1 k in
    (e, L.widen b 0 h.next 0 h1.next h1 (omega arith) grown.0 k')

-- A pair is copied by copying its parts, one after the other.
pub copy_both-IsDeep :
    {A V B W : Type 0} {v : View A V} {P : Region A} {f : A → Copying A} {w : View B W}
    {Q : Region B} {g : B → Copying B}
    → IsDeep v P f
    → IsDeep w Q g
    → IsDeep (view_both v w) (BothWithin P Q) (copy_both f g)
copy_both-IsDeep {f = f} {g = g} F G = record {
  local = record {
    stays = λ (a, b) lo hi h h' agree (wa, wb).
        let (ea, ka) = F.local.stays a lo hi h h' agree wa in
        let (eb, kb) = G.local.stays b lo hi h h' agree wb in (λ i. (ea i, eb i), (ka, kb));
    widen = λ (a, b) lo hi lo' hi' h l u (wa, wb).
        (F.local.widen a lo hi lo' hi' h l u wa, G.local.widen b lo hi lo' hi' h l u wb);
  };
  grows =
      λ (a, b) h. Extends-trans h (f a h).1 (g b (f a h).1).1 (F.grows a h) (G.grows b (f a h).1);
  same = λ (a, b) h (wa, wb).
      let h1 = (f a h).1 in
      let (e, k) = still G.local b h h1 (F.grows a h) wb in
      let first = (kept F a h (g b h1).1 (G.grows b h1) wa).0 in
      let second = G.same b h1 k ∙ e in (λ i. (first i, second i));
  fresh = λ (a, b) h (wa, wb).
      let h1 = (f a h).1 in
      let h2 = (g b h1).1 in
      let (e, k) = still G.local b h h1 (F.grows a h) wb in
      (
        (kept F a h h2 (G.grows b h1) wa).1,
        G.local.widen (g b h1).0 h1.next h2.next h.next h2.next h2 (F.grows a h).0 (omega arith)
            (G.fresh b h1 k),
      );
}

-- A struct has parts that are copied, and the rest, which is not.
abbrev pub view_struct : {S R T V : Type 0} → (S → R) → (S → T) → View T V → View S (R × V)
view_struct rest parts v h s = (rest s, v h (parts s))

abbrev pub StructWithin : {S T : Type 0} → (S → T) → Region T → Region S
StructWithin parts P lo hi h s = P lo hi h (parts s)

abbrev pub copy_struct : {S T : Type 0} → (S → T) → (S → T → S) → (T → Copying T) → S → Copying S
copy_struct parts build f s = do t ← f (parts s); pure (build s t)

-- A struct is copied by copying its parts and putting the copies in.
pub copy_struct-IsDeep :
    {S R T V : Type 0} {v : View T V} {P : Region T} {f : T → Copying T} (rest : S → R)
    (parts : S → T) (build : S → T → S)
    → ((s : S) (t : T) → parts (build s t) ≡ t)
    → ((s : S) (t : T) → rest (build s t) ≡ rest s)
    → IsDeep v P f
    → IsDeep (view_struct rest parts v) (StructWithin parts P) (copy_struct parts build f)
copy_struct-IsDeep {v = v} {P = P} {f = f} rest parts build parts_build rest_build F = record {
  local = record {
    stays = λ s lo hi h h' agree w.
        let (e, k) = F.local.stays (parts s) lo hi h h' agree w in (λ i. (rest s, e i), k);
    widen = λ s. F.local.widen (parts s);
  };
  grows = λ s. F.grows (parts s);
  same = λ s h w.
      let (t, h') = f (parts s) h in
      let inside = ap (v h') (parts_build s t) ∙ F.same (parts s) h w in
      (λ i. (rest_build s t i, inside i));
  fresh = λ s h w.
      let (t, h') = f (parts s) h in
      subst (λ t'. P h.next h'.next h' t') (sym (parts_build s t)) (F.fresh (parts s) h w);
}
