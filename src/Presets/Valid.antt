-- ===== src/Presets/Valid.antt =====
-- What `validate_presets` accepts.
use mathlib.Core.Path.{subst}
use zapret_gui.Base.{
  ◌≡◌, ◌≢◌, refl, sym, ap, false, ◌||◌, Option, none, some, List, [], ◌∷◌, contains, text_eq, arith,
  All, Bool-cases, inl, inr,
}
use zapret_gui.Base.Dict.{Dict, lookup}
use zapret_gui.Result.{ok, >>=-eq-ok}
use zapret_gui.Text.{Text, codes}
use zapret_gui.Json
use zapret_gui.Json.{Json, as_str, as_dict, as_list, is_one}
use zapret_gui.Presets.{
  Seen, text_of, is_blank, is_empty, check_id, check_name, check_fields, check_preset,
  check_presets, check_list, validate_dict, list_of, or_one, validate_presets,
}

abbrev field_of : Text → Option (Dict Text Json) → Option Json
field_of k none = none
field_of k (some d) = lookup k d

abbrev pub prefixed : Option Text → List Text → List Text
prefixed none ts = ts
prefixed (some t) ts = t ∷ ts

-- The names of a list of presets, and the ids of those that have one
abbrev pub texts_at : Text → List Json → List Text
texts_at k [] = []
texts_at k (p ∷ ps) = prefixed (text_of (field_of k (as_dict p))) (texts_at k ps)

-- No text stands twice.
abbrev pub Distinct : List Text → Type 0
Distinct [] = Unit
Distinct (t ∷ ts) = (contains ts t ≡ false) × Distinct ts

-- Neither field is missing, of another type, empty or blank.
abbrev pub HasFields : Json → Type 0
HasFields p =
    (is_blank (field_of (codes "name") (as_dict p)) ≡ false)
    × (is_blank (field_of (codes "args") (as_dict p)) ≡ false)

-- What a list of seen texts becomes: longer by a new text, or the same where there was none
abbrev Extends : Option Text → List Text → List Text → Type 0
Extends none old new = new ≡ old
Extends (some t) old new = (contains old t ≡ false) × (new ≡ t ∷ old)

check_id-Extends :
    (v : Option Json) (names ids : List Text) (s : Seen)
    → check_id v (names, ids) ≡ ok s
    → (s.0 ≡ names) × Extends (text_of v) ids s.1
unfolding check_id as_str
check_id-Extends none names ids s h =
    let e : (names, ids) ≡ s = cc in
    (ap (λ (x : Seen). x.0) (sym e), ap (λ (x : Seen). x.1) (sym e))
check_id-Extends (some (Json.str t)) names ids s h =
    elim (Bool-cases (is_empty t || contains ids t)) [
      | inl bad ↦ absurd (ground arith)
      | inr good ↦
          let e : (names, t ∷ ids) ≡ s = ground arith in
          (ap (λ (x : Seen). x.0) (sym e), (ground arith, ap (λ (x : Seen). x.1) (sym e)))
    ]
check_id-Extends (some v) names ids s h = cc

check_name-Extends :
    (name : Option Text) (p : Dict Text Json) (names ids : List Text) (s : Seen)
    → check_name name p (names, ids) ≡ ok s
    → Extends name names s.0 × Extends (text_of (lookup (codes "id") p)) ids s.1
unfolding check_name
check_name-Extends none p names ids s h = cc
check_name-Extends (some name) p names ids s h = elim (Bool-cases (contains names name)) [
  | inl bad ↦ absurd (ground arith)
  | inr good ↦
      let r = check_id-Extends (lookup (codes "id") p) (name ∷ names) ids s (rw good at h) in
      ((good, r.0), r.1)
]

check_fields-Extends :
    (p : Dict Text Json) (names ids : List Text) (s : Seen)
    → check_fields p (names, ids) ≡ ok s
    → ((is_blank (lookup (codes "name") p) ≡ false) × (is_blank (lookup (codes "args") p) ≡ false))
      × Extends (text_of (lookup (codes "name") p)) names s.0
      × Extends (text_of (lookup (codes "id") p)) ids s.1
unfolding check_fields
check_fields-Extends p names ids s h =
    elim (Bool-cases (is_blank (lookup (codes "name") p) || is_blank (lookup (codes "args") p))) [
      | inl bad ↦ absurd (ground arith)
      | inr good ↦
          let r =
            check_name-Extends (text_of (lookup (codes "name") p)) p names ids s (rw good at h) in
          ((ground arith, ground arith), r.0, r.1)
    ]

check_preset-Extends :
    (p : Json) (names ids : List Text) (s : Seen)
    → check_preset p (names, ids) ≡ ok s
    → HasFields p
      × Extends (text_of (field_of (codes "name") (as_dict p))) names s.0
      × Extends (text_of (field_of (codes "id") (as_dict p))) ids s.1
unfolding check_preset as_dict
check_preset-Extends (Json.obj fs) names ids s h =
    check_fields-Extends (Json.entries fs) names ids s h
check_preset-Extends Json.null names ids s h = cc
check_preset-Extends p names ids s h = cc

Fresh : List Text → List Text → Type 0
Fresh old = All (λ t. contains old t ≡ false)

-- One step of the two arguments below: a text that is new is in front of the rest.
Distinct-prefixed :
    (o : Option Text) (old new ts : List Text)
    → Extends o old new
    → Fresh new ts × Distinct ts
    → Fresh old (prefixed o ts) × Distinct (prefixed o ts)
unfolding Fresh
Distinct-prefixed none old new ts e h = rw (← e) h
Distinct-prefixed (some t) old new ts (n, e) (f, d) =
    let g : Fresh (t ∷ old) ts = subst (λ o. Fresh o ts) e f in ((n, rest ts g), (absent ts g, d))
  where
    rest : (us : List Text) → Fresh (t ∷ old) us → Fresh old us
    rest [] x = tt
    rest (u ∷ us) x = (ground (arith, x.0), rest us x.1)

    absent : (us : List Text) → Fresh (t ∷ old) us → contains us t ≡ false
    absent [] x = refl
    absent (u ∷ us) x = ground (arith, x.0, absent us x.1)

check_presets-Distinct :
    (ps : List Json) (names ids : List Text) (s : Seen)
    → check_presets ps (names, ids) ≡ ok s
    → All HasFields ps
      × (Fresh names (texts_at (codes "name") ps) × Distinct (texts_at (codes "name") ps))
      × (Fresh ids (texts_at (codes "id") ps) × Distinct (texts_at (codes "id") ps))
unfolding check_presets Fresh
check_presets-Distinct [] names ids s h = (tt, (tt, tt), (tt, tt))
check_presets-Distinct (p ∷ ps) names ids s h =
    let ((names', ids'), one, rest) =
      >>=-eq-ok (check_preset p (names, ids)) (check_presets ps) h in
    let (f, n, i) = check_preset-Extends p names ids (names', ids') one in
    let (fs, ns, is) = check_presets-Distinct ps names' ids' s rest in
    (
      (f, fs),
      Distinct-prefixed (text_of (field_of (codes "name") (as_dict p))) names names'
          (texts_at (codes "name") ps) n ns,
      Distinct-prefixed (text_of (field_of (codes "id") (as_dict p))) ids ids'
          (texts_at (codes "id") ps) i is,
    )

-- What holds of an accepted list
abbrev pub IsValid : List Json → Type 0
IsValid ps =
    (ps ≢ [])
    × All HasFields ps
    × Distinct (texts_at (codes "name") ps)
    × Distinct (texts_at (codes "id") ps)

check_list-IsValid : (o : Option (List Json)) (ps : List Json) → check_list o ≡ ok ps → IsValid ps
unfolding check_list
check_list-IsValid none ps h = cc
check_list-IsValid (some []) ps h = cc
check_list-IsValid (some (p ∷ qs)) ps h =
    let (s, seen, e) = >>=-eq-ok (check_presets (p ∷ qs) ([], [])) (λ _. ok (p ∷ qs)) h in
    let (fs, ns, is) = check_presets-Distinct (p ∷ qs) [] [] s seen in
    subst IsValid (list_of_ok e) ((λ n. cc), fs, ns.1, is.1)
  where
    list_of_ok : ok (p ∷ qs) ≡ ok ps → p ∷ qs ≡ ps
    list_of_ok x = cc

validate_dict-IsValid : (d : Dict Text Json) (ps : List Json) → validate_dict d ≡ ok ps → IsValid ps
unfolding validate_dict
validate_dict-IsValid d ps h = elim (Bool-cases (is_one (or_one (lookup (codes "version") d)))) [
  | inl good ↦ check_list-IsValid (list_of (lookup (codes "presets") d)) ps (rw good at h)
  | inr bad ↦ absurd (ground arith)
]

-- An accepted file of presets is a list that is not empty, of presets with a name and arguments
-- that are not blank, with no name and no id twice.
pub validate_presets-IsValid : (j : Json) (ps : List Json) → validate_presets j ≡ ok ps → IsValid ps
unfolding validate_presets
validate_presets-IsValid (Json.obj fs) ps h = validate_dict-IsValid (Json.entries fs) ps h
validate_presets-IsValid Json.null ps h = cc
validate_presets-IsValid j ps h = cc
