-- ===== src/DeepCopy/Unshared.antt =====
-- A copy and its original share no memory: what is written to the one does not show in the other.
use cluster_api_provider_bmc.Base.{
  ◌≡◌, ◌∙◌, ap, refl, Option, none, some, arith, ℕ, ◌≤◌, ◌<◌, nat_eq,
}
use cluster_api_provider_bmc.DeepCopy.Objects.{Quantity, Meta, ObjectList}
use cluster_api_provider_bmc.DeepCopy.Heap.{Cell, Heap, Copying, write}
use cluster_api_provider_bmc.DeepCopy.Copy.{deep_copy, clusters_in, machines_in, templates_in}
use cluster_api_provider_bmc.DeepCopy.Methods.{
  cluster_list_copy, template_list_copy, machine_list_copy,
}
use cluster_api_provider_bmc.DeepCopy.Laws.{View, Region, IsDeep}
use cluster_api_provider_bmc.DeepCopy.Compose.{still}
use cluster_api_provider_bmc.DeepCopy.Items.{view_items, ItemsWithin}
use cluster_api_provider_bmc.DeepCopy.Seen.{
  view_cluster, ClusterWithin, view_machine, MachineWithin, view_template, TemplateWithin,
  view_list, ListWithin,
}
use cluster_api_provider_bmc.DeepCopy.Correct.{
  cluster_list-IsDeep, template_list-IsDeep, machine_list-IsDeep,
}

-- A pointer to a struct that no cell refers to; nil reads as nothing.
abbrev pub view_option : {A V : Type 0} → View A V → View (Option A) (Option V)
view_option v h none = none
view_option v h (some a) = some (v h a)

abbrev pub OptionWithin : {A : Type 0} → Region A → Region (Option A)
OptionWithin P lo hi h none = Unit
OptionWithin P lo hi h (some a) = P lo hi h a

deep_copy-IsDeep :
    {A V : Type 0} {v : View A V} {P : Region A} {f : A → Copying A}
    → IsDeep v P f
    → IsDeep (view_option v) (OptionWithin P) (deep_copy f)
unfolding deep_copy
deep_copy-IsDeep F = record {
  local = record {
    stays = elim [
      | none ↦ λ lo hi h h' agree w. (refl, tt)
      | some a ↦
          λ lo hi h h' agree w. let (e, k) = F.local.stays a lo hi h h' agree w in (ap some e, k)
    ];
    widen = elim [ none ↦ λ lo hi lo' hi' h l u w. tt | some a ↦ F.local.widen a ];
  };
  grows = elim [ none ↦ λ h. (omega arith, λ p l u. refl) | some a ↦ F.grows a ];
  same = elim [ none ↦ λ h w. refl | some a ↦ λ h w. ap some (F.same a h w) ];
  fresh = elim [ none ↦ λ h w. tt | some a ↦ F.fresh a ];
}

deep_copied :
    {A V : Type 0} {v : View A V} {P : Region A} {f : A → Copying A}
    → IsDeep v P f
    → (a : A) (h : Heap) → P 0 h.next h a
    → (v (f a h).1 (f a h).0 ≡ v h a)
      × P h.next (f a h).1.next (f a h).1 (f a h).0
      × (v (f a h).1 a ≡ v h a)
deep_copied {f = f} F a h w =
    (F.same a h w, F.fresh a h w, (still F.local a h (f a h).1 (F.grows a h) w).0)

deep_unshared :
    {A V : Type 0} {v : View A V} {P : Region A} {f : A → Copying A}
    → IsDeep v P f
    → (a : A) (h : Heap) (old new : ℕ) (c d : Cell) → P 0 h.next h a
    → old < h.next
    → h.next ≤ new
    → (v (write old c (f a h).1) (f a h).0 ≡ v h a) × (v (write new d (f a h).1) a ≡ v h a)
unfolding write
deep_unshared {v = v} {f = f} F a h old new c d w below above =
    let (a', h1) = f a h in
    let (e, k) = still F.local a h h1 (F.grows a h) w in
    let stay =
      F.local.stays a' h.next h1.next h1 (write old c h1) (λ p l u. ground arith) (F.fresh a h w) in
    let alone =
      F.local.stays a 0 h.next h (write new d h1) (λ p l u. ground (arith, (F.grows a h).1 p l u))
        w in
    (stay.0 ∙ F.same a h w, alone.0)

module _ {V : Type 0} {m : View Meta V} {P : Region Meta} {copy_meta : Meta → Copying Meta}
    (D : IsDeep m P copy_meta) where
  -- If the libraries copy metadata deeply, the copy of a BMCClusterList that lies in memory is not
  -- changed by a write to any cell that there was before, and its original not by a write to any
  -- other cell.
  pub cluster_list_unshared :
      (object : Option ObjectList) (h : Heap) (old new : ℕ) (c d : Cell)
      → OptionWithin (ListWithin P (ItemsWithin clusters_in (ClusterWithin P))) 0 h.next h object
      → old < h.next
      → h.next ≤ new
      → let (copy, h') = cluster_list_copy copy_meta object h in
        let view = view_option (view_list m (view_items clusters_in (view_cluster m))) in
        (view (write old c h') copy ≡ view h object)
        × (view (write new d h') object ≡ view h object)
  unfolding cluster_list_copy
  cluster_list_unshared = deep_unshared (deep_copy-IsDeep (cluster_list-IsDeep D))

  -- If the libraries copy metadata deeply, the copy of a BMCMachineTemplateList that lies in memory
  -- is not changed by a write to any cell that there was before, and its original not by a write to
  -- any other cell.
  pub template_list_unshared :
      (object : Option ObjectList) (h : Heap) (old new : ℕ) (c d : Cell)
      → OptionWithin (ListWithin P (ItemsWithin templates_in (TemplateWithin P))) 0 h.next h object
      → old < h.next
      → h.next ≤ new
      → let (copy, h') = template_list_copy copy_meta object h in
        let view = view_option (view_list m (view_items templates_in (view_template m))) in
        (view (write old c h') copy ≡ view h object)
        × (view (write new d h') object ≡ view h object)
  unfolding template_list_copy
  template_list_unshared = deep_unshared (deep_copy-IsDeep (template_list-IsDeep D))

  module _ {Q : Type 0} {q : View Quantity Q} {K : Region Quantity}
      {copy_quantity : Quantity → Copying Quantity} (E : IsDeep q K copy_quantity) where
    -- If the libraries copy metadata and quantities deeply, the copy of a BMCMachineList that lies
    -- in memory reads as the original did, reaches new cells only, and leaves the original as it
    -- was.
    pub machine_list_copied :
        (object : Option ObjectList) (h : Heap)
        → OptionWithin
            (ListWithin P (ItemsWithin machines_in (MachineWithin P K)))
            0
            h.next
            h
            object
        → let (copy, h') = machine_list_copy copy_meta copy_quantity object h in
          let view = view_option (view_list m (view_items machines_in (view_machine m q))) in
          (view h' copy ≡ view h object)
          × OptionWithin
              (ListWithin P (ItemsWithin machines_in (MachineWithin P K)))
              h.next
              h'.next
              h'
              copy
          × (view h' object ≡ view h object)
    unfolding machine_list_copy
    machine_list_copied = deep_copied (deep_copy-IsDeep (machine_list-IsDeep D E))

    -- If the libraries copy metadata and quantities deeply, the copy of a BMCMachineList that lies
    -- in memory is not changed by a write to any cell that there was before, and its original not
    -- by a write to any other cell.
    pub machine_list_unshared :
        (object : Option ObjectList) (h : Heap) (old new : ℕ) (c d : Cell)
        → OptionWithin
            (ListWithin P (ItemsWithin machines_in (MachineWithin P K)))
            0
            h.next
            h
            object
        → old < h.next
        → h.next ≤ new
        → let (copy, h') = machine_list_copy copy_meta copy_quantity object h in
          let view = view_option (view_list m (view_items machines_in (view_machine m q))) in
          (view (write old c h') copy ≡ view h object)
          × (view (write new d h') object ≡ view h object)
    unfolding machine_list_copy
    machine_list_unshared = deep_unshared (deep_copy-IsDeep (machine_list-IsDeep D E))
