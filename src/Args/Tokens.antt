-- ===== src/Args/Tokens.antt =====
-- What `tokenize` returns.
use zapret_gui.Base.{
  ℕ, ◌≡◌, refl, ◌∙◌, ap, ◌≢◌, Bool, true, false, not, List, [], ◌∷◌, ◌++◌, map, append-nil,
  append_assoc, arith, nat_eq, All, ==_refl,
}
use zapret_gui.Text.{Text, is_space, join}
use zapret_gui.Args.{tokenize, tokens_from, flush}

-- A token is not empty and holds no quote.
abbrev pub IsToken : Text → Type 0
IsToken t = (t ≢ []) × All (λ c. c ≢ 34) t

abbrev pub quote : Text → Text
quote t = 34 ∷ t ++ 34 ∷ []

Unquoted-snoc : (t : Text) (c : ℕ) → All (λ x. x ≢ 34) t → c ≢ 34 → All (λ x. x ≢ 34) (t ++ c ∷ [])
Unquoted-snoc [] c h n = (n, tt)
Unquoted-snoc (x ∷ t) c h n = (h.0, Unquoted-snoc t c h.1 n)

flush-IsToken :
    (cur : Text) (rest : List Text)
    → All (λ x. x ≢ 34) cur
    → All IsToken rest
    → All IsToken (flush cur rest)
flush-IsToken [] rest h r = r
flush-IsToken (c ∷ cur) rest h r = (((λ e. cc), h), r)

tokens_from-IsToken :
    (cur : Text) (q : Bool) (s : Text) → All (λ x. x ≢ 34) cur → All IsToken (tokens_from cur q s)
unfolding tokens_from
tokens_from-IsToken cur q [] h = flush-IsToken cur [] h tt
tokens_from-IsToken cur q (ch ∷ s) h = ground (
  arith,
  tokens_from-IsToken cur (not q) s h,
  flush-IsToken cur (tokens_from [] q s) h (tokens_from-IsToken [] q s tt),
  λ (n : ch ≢ 34). tokens_from-IsToken (cur ++ ch ∷ []) q s (Unquoted-snoc cur ch h n),
)

-- Every token of every text is not empty and holds no quote.
pub tokenize-IsToken : (s : Text) → All IsToken (tokenize s)
unfolding tokenize
tokenize-IsToken s = tokens_from-IsToken [] false s tt

quoted_run :
    (cur t s : Text)
    → All (λ x. x ≢ 34) t
    → tokens_from cur true (t ++ 34 ∷ s) ≡ tokens_from (cur ++ t) false s
unfolding tokens_from
quoted_run cur [] s h = rw (append-nil, ==_refl)
quoted_run cur (c ∷ t) s h =
    ground (arith, h.0, quoted_run (cur ++ c ∷ []) t s h.1, append_assoc cur (c ∷ []) t)

flush-cons : (t : Text) (rest : List Text) → t ≢ [] → flush t rest ≡ t ∷ rest
flush-cons [] rest h = absurd (h refl)
flush-cons (c ∷ t) rest h = refl

-- A quoted token is read whole, up to the space behind it.
quoted_token :
    (t s : Text) → IsToken t → tokens_from [] false (quote t ++ 32 ∷ s) ≡ t ∷ tokens_from [] false s
unfolding tokens_from is_space nat_eq
quoted_token t s (h, u) =
    rw (append_assoc t (34 ∷ []) (32 ∷ s)) (quoted_run [] t (32 ∷ s) u ∙ flush-cons t _ h)

quoted_last : (t : Text) → IsToken t → tokens_from [] false (quote t) ≡ t ∷ []
unfolding tokens_from is_space nat_eq
quoted_last t (h, u) = quoted_run [] t [] u ∙ flush-cons t [] h

-- Tokens that are quoted and joined by spaces are read back by tokenize as they were.
pub tokenize-join :
    (ts : List Text) → All IsToken ts → tokenize (join (32 ∷ []) (map quote ts)) ≡ ts
unfolding tokenize join
tokenize-join [] h = refl
tokenize-join (t ∷ []) h = quoted_last t h.0
tokenize-join (t ∷ u ∷ ts) h =
    quoted_token t (join (32 ∷ []) (map quote (u ∷ ts))) h.0
    ∙ ap (λ r. t ∷ r) (tokenize-join (u ∷ ts) h.1)
