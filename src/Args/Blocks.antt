-- ===== src/Args/Blocks.antt =====
-- What `build_args_str` does to the blocks between the `--new` arguments.
use zapret_gui.Base.{
  ◌≡◌, refl, ◌∙◌, ap, ◌≢◌, true, List, [], ◌∷◌, ◌++◌, map, append-nil, append_assoc, arith, text_eq,
  All, contains, any,
}
use zapret_gui.Text.{Text}
use zapret_gui.Paths.{Layout}
use zapret_gui.Args.{
  blocks_of, blocks_from, flat_blocks, behind_new, add_exclude, exclude_arg, args_of, new_arg,
  is_hostlist, raw_args,
}

abbrev pub NoNew : List Text → Type 0
NoNew = All (λ arg. arg ≢ new_arg)

abbrev pub IsEmpty : List (List Text) → Type 0
IsEmpty bs = bs ≡ []

NoNew-append : (xs ys : List Text) → NoNew xs → NoNew ys → NoNew (xs ++ ys)
NoNew-append [] ys hx hy = hy
NoNew-append (x ∷ xs) ys hx hy = (hx.0, NoNew-append xs ys hx.1 hy)

-- The list of blocks is never empty, and no block holds the separator.
blocks_from-NoNew : (cur args : List Text) → NoNew cur → All NoNew (blocks_from cur args)
unfolding blocks_from
blocks_from-NoNew cur [] h = (h, tt)
blocks_from-NoNew cur (arg ∷ args) h = ground (
  arith,
  h,
  blocks_from-NoNew [] args tt,
  λ (n : arg ≢ new_arg).
      blocks_from-NoNew (cur ++ arg ∷ []) args (NoNew-append cur (arg ∷ []) h (n, tt)),
)

blocks_from_run :
    (cur block rest : List Text)
    → NoNew block
    → blocks_from cur (block ++ rest) ≡ blocks_from (cur ++ block) rest
unfolding blocks_from
blocks_from_run cur [] rest h = rw append-nil
blocks_from_run cur (arg ∷ block) rest h = ground (
  arith,
  h.0,
  blocks_from_run (cur ++ arg ∷ []) block rest h.1,
  append_assoc cur (arg ∷ []) block,
)

blocks_from-behind_new :
    (cur : List Text) (bs : List (List Text))
    → All NoNew bs
    → blocks_from cur (behind_new bs) ≡ cur ∷ bs
unfolding blocks_from behind_new text_eq
blocks_from-behind_new cur [] h = refl
blocks_from-behind_new cur (b ∷ bs) h =
    ap (λ r. cur ∷ r) (blocks_from_run [] b (behind_new bs) h.0 ∙ blocks_from-behind_new b bs h.1)

-- Blocks that are joined by `--new` and cut again are the same blocks.
blocks_of-flat_blocks :
    (b : List Text) (bs : List (List Text))
    → NoNew b
    → All NoNew bs
    → blocks_of (flat_blocks (b ∷ bs)) ≡ b ∷ bs
unfolding blocks_of flat_blocks
blocks_of-flat_blocks b bs h hs =
    blocks_from_run [] b (behind_new bs) h ∙ blocks_from-behind_new b bs hs

blocks_of-NoNew : (args : List Text) → All NoNew (blocks_of args)
unfolding blocks_of
blocks_of-NoNew args = blocks_from-NoNew [] args tt

exclude_arg-ne-new_arg : (l : Layout) → exclude_arg l ≢ new_arg
unfolding exclude_arg
exclude_arg-ne-new_arg l e = cc

add_exclude-NoNew :
    (x : Text) (block : List Text) → x ≢ new_arg → NoNew block → NoNew (add_exclude x block)
unfolding add_exclude
add_exclude-NoNew x block n h = ground (arith, NoNew-append block (x ∷ []) h (n, tt))

map-add_exclude-NoNew :
    (x : Text) (bs : List (List Text))
    → x ≢ new_arg
    → All NoNew bs
    → All NoNew (map (add_exclude x) bs)
map-add_exclude-NoNew x [] n h = tt
map-add_exclude-NoNew x (b ∷ bs) n h =
    (add_exclude-NoNew x b n h.0, map-add_exclude-NoNew x bs n h.1)

blocks_of-map :
    (x : Text) (bs : List (List Text))
    → x ≢ new_arg
    → bs ≢ []
    → All NoNew bs
    → blocks_of (flat_blocks (map (add_exclude x) bs)) ≡ map (add_exclude x) bs
blocks_of-map x [] n h hs = absurd (h refl)
blocks_of-map x (b ∷ bs) n h hs =
    blocks_of-flat_blocks (add_exclude x b) (map (add_exclude x) bs) (add_exclude-NoNew x b n hs.0)
      (map-add_exclude-NoNew x bs n hs.1)

blocks_from-ne-nil : (cur args : List Text) → blocks_from cur args ≢ []
unfolding blocks_from
blocks_from-ne-nil cur [] e = cc
blocks_from-ne-nil cur (arg ∷ args) e = ground (arith, blocks_from-ne-nil (cur ++ arg ∷ []) args)

blocks_of-ne-nil : (args : List Text) → blocks_of args ≢ []
unfolding blocks_of
blocks_of-ne-nil args = blocks_from-ne-nil [] args

-- The blocks of the argument list are the blocks of the substituted tokens, in order, each
-- behind the insertion of the exclusion list.
blocks_of-args_of :
    (l : Layout) (argstr mode : Text) (ranges : Text × Text)
    → blocks_of (args_of l argstr mode ranges)
      ≡ map (add_exclude (exclude_arg l)) (blocks_of (raw_args l argstr mode ranges))
unfolding args_of
blocks_of-args_of l argstr mode ranges =
    let args = raw_args l argstr mode ranges in
    blocks_of-map (exclude_arg l) (blocks_of args) (exclude_arg-ne-new_arg l)
      (blocks_of-ne-nil args) (blocks_of-NoNew args)

contains-append_last : (xs : List Text) (x : Text) → contains (xs ++ x ∷ []) x ≡ true
contains-append_last [] x = ground arith
contains-append_last (y ∷ xs) x = ground (arith, contains-append_last xs x)

any-append_left :
    (xs : List Text) (x : Text) → any is_hostlist xs ≡ true → any is_hostlist (xs ++ x ∷ []) ≡ true
any-append_left [] x h = cc
any-append_left (y ∷ xs) x h = ground (arith, any-append_left xs x)

-- A block is guarded when a host list in it brings the user's exclusion list with it.
abbrev pub IsGuarded : Text → List Text → Type 0
IsGuarded x block = any is_hostlist block ≡ true → contains block x ≡ true

add_exclude-IsGuarded : (x : Text) (block : List Text) → IsGuarded x (add_exclude x block)
unfolding add_exclude
add_exclude-IsGuarded x block h = ground (arith, contains-append_last block x)

map-add_exclude-IsGuarded :
    (x : Text) (bs : List (List Text)) → All (IsGuarded x) (map (add_exclude x) bs)
map-add_exclude-IsGuarded x [] = tt
map-add_exclude-IsGuarded x (b ∷ bs) = (add_exclude-IsGuarded x b, map-add_exclude-IsGuarded x bs)

-- In the argument list of every strategy, every block with a host list carries the exclusion
-- list of the user.
args_of-IsGuarded :
    (l : Layout) (argstr mode : Text) (ranges : Text × Text)
    → All (IsGuarded (exclude_arg l)) (blocks_of (args_of l argstr mode ranges))
args_of-IsGuarded l argstr mode ranges =
    rw blocks_of-args_of
      (map-add_exclude-IsGuarded (exclude_arg l) (blocks_of (raw_args l argstr mode ranges)))

-- The blocks of the argument list of a strategy are those of the substituted tokens, in order,
-- each behind the insertion of the exclusion list, and every block with a host list carries the
-- exclusion list of the user.
pub args_of_lem :
    (l : Layout) (argstr mode : Text) (ranges : Text × Text)
    → (blocks_of (args_of l argstr mode ranges)
        ≡ map (add_exclude (exclude_arg l)) (blocks_of (raw_args l argstr mode ranges)))
      × All (IsGuarded (exclude_arg l)) (blocks_of (args_of l argstr mode ranges))
args_of_lem l argstr mode ranges =
    (blocks_of-args_of l argstr mode ranges, args_of-IsGuarded l argstr mode ranges)

-- A block that was given the exclusion list is not given it again.
pub add_exclude_idem :
    (x : Text) (block : List Text) → add_exclude x (add_exclude x block) ≡ add_exclude x block
unfolding add_exclude
add_exclude_idem x block = ground (arith, contains-append_last block x, any-append_left block x)
