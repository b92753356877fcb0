-- ===== src/DeepCopy/Laws.antt =====
-- What makes a copy deep, and how the copies of parts make up the copy of a whole.
use cluster_api_provider_bmc.Base.{◌≡◌, ap, refl, arith, ℕ, ◌≤◌, ◌<◌, Option, none, some, nat_eq}
use cluster_api_provider_bmc.DeepCopy.Objects.{Pointer}
use cluster_api_provider_bmc.DeepCopy.Heap.{Cell, Heap, Copying, allocate}
use cluster_api_provider_bmc.DeepCopy.Copy.{copy_cell}

-- The cells from `lo` on and below `hi` are the same in both heaps.
abbrev pub Agree : ℕ → ℕ → Heap → Heap → Type 0
Agree lo hi h h' = (p : ℕ) → lo ≤ p → p < hi → h'.cell p ≡ h.cell p

-- No cell that there was has changed.
abbrev pub Extends : Heap → Heap → Type 0
Extends h h' = (h.next ≤ h'.next) × Agree 0 h.next h h'

abbrev pub View : Type 0 → Type 0 → Type 0
View A V = Heap → A → V

-- All that can be reached lies in these cells.
abbrev pub Region : Type 0 → Type 1
Region A = ℕ → ℕ → Heap → A → Type 0

-- What an object reads as, and what it reaches, depends on the cells that it reaches.
pub record IsLocal {A V : Type 0} (view : View A V) (Within : Region A) : Type 0 where
  pub stays :
      (a : A) (lo hi : ℕ) (h h' : Heap)
      → Agree lo hi h h'
      → Within lo hi h a
      → (view h' a ≡ view h a) × Within lo hi h' a
  pub widen :
      (a : A) (lo hi lo' hi' : ℕ) (h : Heap)
      → lo' ≤ lo
      → hi ≤ hi'
      → Within lo hi h a
      → Within lo' hi' h a

-- A copy leaves what there was alone, reads as the original, and reaches new cells only.
pub record IsDeep {A V : Type 0} (view : View A V) (Within : Region A) (copy : A → Copying A)
    : Type 0 where
  pub local : IsLocal view Within
  pub grows : (a : A) (h : Heap) → Extends h (copy a h).1
  pub same : (a : A) (h : Heap) → Within 0 h.next h a → view (copy a h).1 (copy a h).0 ≡ view h a
  pub fresh :
      (a : A) (h : Heap)
      → Within 0 h.next h a
      → Within h.next (copy a h).1.next (copy a h).1 (copy a h).0

-- A pointer reads as what it refers to.
abbrev pub view_cell : View Pointer (Option Cell)
view_cell h none = none
view_cell h (some p) = some (h.cell p)

abbrev pub CellWithin : Region Pointer
CellWithin lo hi h none = Unit
CellWithin lo hi h (some p) = (lo ≤ p) × (p < hi)

pub view_cell-IsLocal : IsLocal view_cell CellWithin
view_cell-IsLocal = record { stays = stays; widen = widen }
  where
    stays :
        (a : Pointer) (lo hi : ℕ) (h h' : Heap)
        → Agree lo hi h h'
        → CellWithin lo hi h a
        → (view_cell h' a ≡ view_cell h a) × CellWithin lo hi h' a
    stays none lo hi h h' agree w = (refl, tt)
    stays (some q) lo hi h h' agree w = (ap some (agree q w.0 w.1), w)

    widen :
        (a : Pointer) (lo hi lo' hi' : ℕ) (h : Heap)
        → lo' ≤ lo
        → hi ≤ hi'
        → CellWithin lo hi h a
        → CellWithin lo' hi' h a
    widen none lo hi lo' hi' h l u w = tt
    widen (some q) lo hi lo' hi' h l u w = omega arith

pub copy_cell-IsDeep : IsDeep view_cell CellWithin copy_cell
unfolding copy_cell allocate
copy_cell-IsDeep = record { local = view_cell-IsLocal; grows = grows; same = same; fresh = fresh }
  where
    grows : (a : Pointer) (h : Heap) → Extends h (copy_cell a h).1
    grows none h = (omega arith, λ p _ _. refl)
    grows (some q) h = (omega arith, λ p l u. ground arith)

    same :
        (a : Pointer) (h : Heap)
        → CellWithin 0 h.next h a
        → view_cell (copy_cell a h).1 (copy_cell a h).0 ≡ view_cell h a
    same none h w = refl
    same (some q) h w = ground arith

    fresh :
        (a : Pointer) (h : Heap)
        → CellWithin 0 h.next h a
        → CellWithin h.next (copy_cell a h).1.next (copy_cell a h).1 (copy_cell a h).0
    fresh none h w = tt
    fresh (some q) h w = omega arith
