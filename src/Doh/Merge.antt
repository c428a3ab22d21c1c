-- ===== src/Doh/Merge.antt =====
-- The loop of `doh_enable` over the adapters that are read.
use zapret_gui.Base.{
  ◌≡◌, refl, All, ◌⊎◌, contains, ◌==◌, text_eq, ap, true, false, none, some, List, [], ◌∷◌,
  if◌then◌else◌, Bool-cases, Option-cases, ==_refl, ==_sound, inl, inr,
}
use zapret_gui.Result.{ok}
use zapret_gui.Base.Dict.{lookup, insert, lookup-insert}
use zapret_gui.Text.{Text, lower}
use zapret_gui.Doh.{Snapshot, Entry}
use zapret_gui.Doh.Ops.{merge}

-- The loop over the adapters keeps what is stored,
pub merge-kept :
    (known : List Text) (current saved out : Snapshot) (i : Text) (e : Entry)
    → merge known current saved ≡ ok out
    → lookup i saved ≡ some e
    → lookup i out ≡ some e
unfolding merge
merge-kept known [] saved out i e m h = cc
merge-kept known ((j, x) ∷ current) saved out i e m h =
    elim (Bool-cases (contains known (lower x.guid))) [
      | inl c ↦ merge-kept known current saved out i e (rw c at m) h
      | inr c ↦ elim (Option-cases (lookup j saved)) [
        | inl l ↦
            merge-kept known current (insert j x saved) out i e (rw (c, l) at m)
              (rw (lookup-insert i j x saved) (other (Bool-cases (i == j)) l))
        | inr (y, l) ↦ let k = rw (c, l) at m in cc
      ]
    ]
  where
    other :
        ((i == j) ≡ true) ⊎ ((i == j) ≡ false)
        → lookup j saved ≡ none
        → (if i == j then some x else lookup i saved) ≡ some e
    other (inl q) l = cc (ap (λ k. lookup k saved) (==_sound i j q), l, h)
    other (inr q) l = rw q h

-- and adds every adapter whose identifier is not known.
pub merge-added :
    (known : List Text) (current saved out : Snapshot)
    → merge known current saved ≡ ok out
    → All (λ x. (contains known (lower x.1.guid) ≡ true) ⊎ (lookup x.0 out ≡ some x.1)) current
unfolding merge
merge-added known [] saved out m = tt
merge-added known ((j, x) ∷ current) saved out m =
    elim (Bool-cases (contains known (lower x.guid))) [
      | inl c ↦ (inl c, merge-added known current saved out (rw c at m))
      | inr c ↦ elim (Option-cases (lookup j saved)) [
        | inl l ↦ (
          inr (
              merge-kept known current (insert j x saved) out j x (rw (c, l) at m)
                (rw (lookup-insert j j x saved) (rw (==_refl j) refl))),
          merge-added known current (insert j x saved) out (rw (c, l) at m),
        )
        | inr (y, l) ↦ let k = rw (c, l) at m in cc
      ]
    ]
