-- ===== src/Validation/Accepts/Walk.antt =====
-- The checks of lists, dictionaries and structs, from those of their parts.
use mathlib.Core.Path.{subst}
use mathlib.Core.List.{append-eq-nil_iff}
use rustly_core.Base.{ℕ, suc, ◌≡◌, refl, ap, [], ◌∷◌, ◌++◌, arith}
use rustly_core.Schema.Ir.{CollectionConstraints}
use rustly_core.Validation.Value.{OwnedValue, OwnedList, OwnedDict, list_len, dict_len}
use rustly_core.Validation.Path.{PathSegment}
use rustly_core.Validation.Spec.{
  Segments, Check, check_items, check_entries, check_list, check_dict,
}
use rustly_core.Validation.Accepts.{AllItems, AllEntries, AcceptsList, AcceptsDict, SizeWithin}
use rustly_core.Validation.Accepts.Values.{Silent, Silent-append, Silent-size, Gives}

-- What a check reports below a path, and delivers.
abbrev pub SilentBelow : Check → (OwnedValue → Type 0) → Type 0
SilentBelow f P =
    (p : Segments) (g : PathSegment) (v : OwnedValue) → Silent (f (p ++ g ∷ []) v).1 (P v)

abbrev pub GivesBelow : Check → (OwnedValue → Type 0) → Type 0
GivesBelow f C = (p : Segments) (g : PathSegment) (v : OwnedValue) → Gives p (f (p ++ g ∷ []) v) C

module _ (f : Check) (C : OwnedValue → Type 0) (gives : GivesBelow f C) where
  -- If no item is reported, all are kept, and all conform.
  items_give :
      (p : Segments) (i : ℕ) (vs : OwnedList)
      → (check_items f p i vs).1 ≡ []
      → AllItems C (check_items f p i vs).0 × (list_len (check_items f p i vs).0 ≡ list_len vs)
  unfolding check_items
  items_give p i OwnedList.nil e = (tt, refl)
  items_give p i (OwnedList.cons v vs) e =
      let (a, b) = append-eq-nil_iff.0 e in
      let (w, h, c) = gives p (PathSegment.index i) v a in
      let (cs, n) = items_give p (suc i) vs b in rw h ((c, cs), ap suc n)

  entries_give :
      (p : Segments) (m : OwnedDict)
      → (check_entries f p m).1 ≡ []
      → AllEntries (λ k. C) (check_entries f p m).0
        × (dict_len (check_entries f p m).0 ≡ dict_len m)
  unfolding check_entries
  entries_give p OwnedDict.empty e = (tt, refl)
  entries_give p (OwnedDict.entry k v m) e =
      let (a, b) = append-eq-nil_iff.0 e in
      let (w, h, c) = gives p (PathSegment.key k) v a in
      let (cs, n) = entries_give p m b in rw h ((c, cs), ap suc n)

  pub Gives-list :
      (c : CollectionConstraints) (p : Segments) (v : OwnedValue)
      → Gives p (check_list f c p v) (AcceptsList C c)
  unfolding check_list
  Gives-list c p (OwnedValue.list vs) e =
      let (a, b) = append-eq-nil_iff.0 e in
      let (cs, n) = items_give p 0 vs a in
      (OwnedValue.list (check_items f p 0 vs).0, refl, (cs, (Silent-size p _ _ _).0 b))
  Gives-list c p _ e = ground arith

  pub Gives-dict :
      (c : CollectionConstraints) (p : Segments) (v : OwnedValue)
      → Gives p (check_dict f c p v) (AcceptsDict C c)
  unfolding check_dict
  Gives-dict c p (OwnedValue.dict m) e =
      let (a, b) = append-eq-nil_iff.0 e in
      let (cs, n) = entries_give p m a in
      (OwnedValue.dict (check_entries f p m).0, refl, (cs, (Silent-size p _ _ _).0 b))
  Gives-dict c p _ e = ground arith

  module _ (P : OwnedValue → Type 0) (silent : SilentBelow f P) where
    Silent-items :
        (p : Segments) (i : ℕ) (vs : OwnedList) → Silent (check_items f p i vs).1 (AllItems P vs)
    unfolding check_items
    Silent-items p i OwnedList.nil = (λ e. tt, λ t. refl)
    Silent-items p i (OwnedList.cons v vs) =
        Silent-append _ _ (silent p (PathSegment.index i) v) (Silent-items p (suc i) vs)

    Silent-entries :
        (p : Segments) (m : OwnedDict) → Silent (check_entries f p m).1 (AllEntries (λ k. P) m)
    unfolding check_entries
    Silent-entries p OwnedDict.empty = (λ e. tt, λ t. refl)
    Silent-entries p (OwnedDict.entry k v m) =
        Silent-append _ _ (silent p (PathSegment.key k) v) (Silent-entries p m)

    pub Silent-list :
        (c : CollectionConstraints) (p : Segments) (v : OwnedValue)
        → Silent (check_list f c p v).1 (AcceptsList P c v)
    unfolding check_list
    Silent-list c p (OwnedValue.list vs) =
        let h = Silent-items p 0 vs in
        (
          λ e.
              let (a, b) = append-eq-nil_iff.0 e in
              (
                h.0 a,
                subst (SizeWithin c.min_size c.max_size) (items_give p 0 vs a).1
                    ((Silent-size p _ _ _).0 b),
              ),
          λ (ps, within).
              append-eq-nil_iff.1
                (h.1 ps, rw (items_give p 0 vs (h.1 ps)).1 ((Silent-size p _ _ _).1 within)),
        )
    Silent-list c p _ = (λ e. ground arith, λ b. absurd b)

    pub Silent-dict :
        (c : CollectionConstraints) (p : Segments) (v : OwnedValue)
        → Silent (check_dict f c p v).1 (AcceptsDict P c v)
    unfolding check_dict
    Silent-dict c p (OwnedValue.dict m) =
        let h = Silent-entries p m in
        (
          λ e.
              let (a, b) = append-eq-nil_iff.0 e in
              (
                h.0 a,
                subst (SizeWithin c.min_size c.max_size) (entries_give p m a).1
                    ((Silent-size p _ _ _).0 b),
              ),
          λ (ps, within).
              append-eq-nil_iff.1
                (h.1 ps, rw (entries_give p m (h.1 ps)).1 ((Silent-size p _ _ _).1 within)),
        )
    Silent-dict c p _ = (λ e. ground arith, λ b. absurd b)
