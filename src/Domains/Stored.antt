-- ===== src/Domains/Stored.antt =====
-- The domains that `write_user_domains` stores.
use zapret_gui.Base.{
  ℕ, ◌≡◌, ◌≢◌, refl, ◌∙◌, Bool, true, false, not, ◌&&◌, ◌||◌, Option, some, List, [], ◌∷◌, arith,
  contains, nat_eq, text_eq, all, All, Bool-cases, inl, inr, map, sort_by,
}
use zapret_gui.Base.Sort.{IsSorted, sort_by-IsSorted, All-sort_by, contains-sort_by}
use zapret_gui.Text.{Text, is_space, is_lower_alnum}
use zapret_gui.Text.Laws.{All-of-all}
use zapret_gui.Text.Strip.Laws.{strip-Free}
use zapret_gui.Text.Split.{is_break, splitlines}
use zapret_gui.Text.Split.Laws.{IsLine, splitlines-join, splitlines-nil}
use zapret_gui.Domains.{
  is_domain, normalize_domain, is_nil, first_in, clean_from, text_ltb, file_of, write_user_domains,
  read_lines, read_user_domains,
}
use zapret_gui.Domains.Labels.{
  IsAccepted, normalize_domain-IsAccepted, is_domain_char, is_domain-chars,
}

abbrev pub IsDomain : Text → Type 0
IsDomain s = (is_domain s ≡ true) × (s ≢ [])

clean_from-IsDomain :
    (idna : Text → Option Text) (seen ds : List Text) → All IsDomain (clean_from idna seen ds)
unfolding clean_from
clean_from-IsDomain idna seen [] = tt
clean_from-IsDomain idna seen (d ∷ ds) =
    elim (Bool-cases
      (is_nil (normalize_domain idna d) || contains seen (normalize_domain idna d))) [
        | inl skip ↦ rw skip (clean_from-IsDomain idna seen ds)
        | inr more ↦ rw more (
          fact (normalize_domain idna d) (normalize_domain-IsAccepted idna d) (ground arith),
          clean_from-IsDomain idna (normalize_domain idna d ∷ seen) ds,
        )
      ]
  where
    fact : (s : Text) → IsAccepted s → is_nil s ≡ false → IsDomain s
    fact [] o n = cc
    fact (c ∷ s) (inl e) n = cc
    fact (c ∷ s) (inr e) n = (e, λ x. cc)

char-not_space : (c : ℕ) → is_domain_char c ≡ true → is_space c ≡ false
unfolding is_lower_alnum is_space
char-not_space c h = ground arith

char-not_break : (c : ℕ) → is_domain_char c ≡ true → is_break c ≡ false
unfolding is_lower_alnum is_break
char-not_break c h = ground arith

char-not_mark : (c : ℕ) → is_domain_char c ≡ true → contains (35 ∷ []) c ≡ false
unfolding is_lower_alnum
char-not_mark c h = ground arith

IsDomain-IsLine : (s : Text) → IsDomain s → IsLine s
IsDomain-IsLine s h =
    All-of-all is_domain_char (λ c. is_break c ≡ false) s char-not_break (is_domain-chars s h.0)

first_in-domain : (s : Text) → IsDomain s → (is_nil s || first_in s (35 ∷ [])) ≡ false
first_in-domain [] h = absurd (h.1 refl)
first_in-domain (c ∷ s) h = char-not_mark c (all-head (is_domain-chars (c ∷ s) h.0))
  where
    all-head : (is_domain_char c && all is_domain_char s) ≡ true → is_domain_char c ≡ true
    all-head x = ground arith

read_lines-domains : (ds : List Text) → All IsDomain ds → read_lines ds ≡ ds
unfolding read_lines
read_lines-domains [] h = refl
read_lines-domains (d ∷ ds) h = rw (
  strip-Free is_space d (
      All-of-all is_domain_char (λ c. is_space c ≡ false) d char-not_space
        (is_domain-chars d (h.0).0)),
  first_in-domain d h.0,
  read_lines-domains ds h.1,
)

All-IsLine : (ds : List Text) → All IsDomain ds → All IsLine ds
All-IsLine [] h = tt
All-IsLine (d ∷ ds) h = (IsDomain-IsLine d h.0, All-IsLine ds h.1)

splitlines-file_of : (ds : List Text) → All IsDomain ds → splitlines (file_of ds) ≡ ds
splitlines-file_of [] h = splitlines-nil
splitlines-file_of (d ∷ ds) h = splitlines-join d ds (IsDomain-IsLine d h.0) (All-IsLine ds h.1)

read-some : (content : Text) → read_user_domains (some content) ≡ read_lines (splitlines content)
unfolding read_user_domains
read-some content = refl

write-0 :
    (idna : Text → Option Text) (ds : List Text)
    → (write_user_domains idna ds).0 ≡ sort_by text_ltb (clean_from idna [] ds)
unfolding write_user_domains
write-0 idna ds = refl

write-1 :
    (idna : Text → Option Text) (ds : List Text)
    → (write_user_domains idna ds).1 ≡ file_of (sort_by text_ltb (clean_from idna [] ds))
unfolding write_user_domains
write-1 idna ds = refl

-- Every domain that is written is a valid one.
pub write-IsDomain :
    (idna : Text → Option Text) (ds : List Text) → All IsDomain (write_user_domains idna ds).0
write-IsDomain idna ds =
    rw write-0
      (All-sort_by text_ltb IsDomain (clean_from idna [] ds) (clean_from-IsDomain idna [] ds))

-- The file that write_user_domains writes is read by read_user_domains as the list that was
-- returned, whatever was entered and whatever the IDNA codec answers.
pub read-write :
    (idna : Text → Option Text) (ds : List Text)
    → read_user_domains (some (write_user_domains idna ds).1) ≡ (write_user_domains idna ds).0
read-write idna ds =
    let clean = sort_by text_ltb (clean_from idna [] ds) in
    let valid : All IsDomain clean =
      All-sort_by text_ltb IsDomain (clean_from idna [] ds) (clean_from-IsDomain idna [] ds) in
    rw (write-1, write-0)
      (read-some (file_of clean)
        ∙ (rw (splitlines-file_of clean valid) (read_lines-domains clean valid)))

text_ltb_asym : (s t : Text) → text_ltb s t ≡ true → text_ltb t s ≡ false
unfolding text_ltb
text_ltb_asym [] [] h = refl
text_ltb_asym [] (d ∷ t) h = refl
text_ltb_asym (c ∷ s) [] h = cc
text_ltb_asym (c ∷ s) (d ∷ t) h = ground (arith, text_ltb_asym s t)

text_ltb_trans : (s t u : Text) → text_ltb t s ≡ false → text_ltb u t ≡ false → text_ltb u s ≡ false
unfolding text_ltb
text_ltb_trans [] [] [] h k = refl
text_ltb_trans [] [] (e ∷ u) h k = refl
text_ltb_trans [] (d ∷ t) [] h k = cc
text_ltb_trans [] (d ∷ t) (e ∷ u) h k = refl
text_ltb_trans (c ∷ s) [] u h k = cc
text_ltb_trans (c ∷ s) (d ∷ t) [] h k = cc
text_ltb_trans (c ∷ s) (d ∷ t) (e ∷ u) h k = ground (arith, text_ltb_trans s t u)

-- The domains are written in alphabetical order.
write-IsSorted :
    (idna : Text → Option Text) (ds : List Text) → IsSorted text_ltb (write_user_domains idna ds).0
write-IsSorted idna ds =
    rw write-0 (sort_by-IsSorted text_ltb text_ltb_asym text_ltb_trans (clean_from idna [] ds))

contains-clean_from :
    (idna : Text → Option Text) (seen ds : List Text) (d : Text)
    → contains (clean_from idna seen ds) d
      ≡ (contains (map (normalize_domain idna) ds) d && not (is_nil d) && not (contains seen d))
unfolding clean_from
contains-clean_from idna seen [] d = ground arith
contains-clean_from idna seen (x ∷ ds) d = ground (
  arith,
  contains-clean_from idna seen ds d,
  contains-clean_from idna (normalize_domain idna x ∷ seen) ds d,
)

-- A domain is written exactly when it is what an entered text normalises to, and not empty.
contains-write :
    (idna : Text → Option Text) (ds : List Text) (d : Text)
    → contains (write_user_domains idna ds).0 d
      ≡ (contains (map (normalize_domain idna) ds) d && not (is_nil d))
contains-write idna ds d = rw write-0 (
    contains-sort_by text_ltb d (clean_from idna [] ds)
    ∙ (contains-clean_from idna [] ds d ∙ and-true _))
  where
    and-true : (b : Bool) → (b && not false) ≡ b
    and-true true = refl
    and-true false = refl

-- The domains are written in alphabetical order, and a domain is written exactly when it is
-- what an entered text normalises to, and not empty.
pub write_user_domains_lem :
    (idna : Text → Option Text) (ds : List Text)
    → IsSorted text_ltb (write_user_domains idna ds).0
      × ((d : Text)
          → contains (write_user_domains idna ds).0 d
            ≡ (contains (map (normalize_domain idna) ds) d && not (is_nil d)))
write_user_domains_lem idna ds = (write-IsSorted idna ds, contains-write idna ds)
