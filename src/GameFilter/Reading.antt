-- ===== src/GameFilter/Reading.antt =====
-- How the lines of the flag file are read.
use zapret_gui.Base.{
  ℕ, ◌≡◌, refl, ◌∙◌, ap, true, false, some, List, [], ◌∷◌, ◌++◌, arith, nat_eq, text_eq, All,
}
use zapret_gui.Text.{Text, codes, is_space, is_digit}
use zapret_gui.Text.Laws.{All-of-all}
use zapret_gui.Text.Strip.Laws.{strip-Free}
use zapret_gui.Text.Split.{splitlines, is_break}
use zapret_gui.Text.Split.Laws.{IsLine, splitlines-line, splitlines-nil}
use zapret_gui.GameFilter.{
  Filter, defaults, pair_of, key_value, read_line, read_range, read_lines, check_mode, flag_text,
  read_game_filter, normalize_port_ranges,
}
use zapret_gui.GameFilter.Ranges.{is_range_char, normalize-chars}

-- A text that `normalize_port_ranges` returns as it is
abbrev pub IsRanges : Text → Type 0
IsRanges t = normalize_port_ranges (some t) ≡ some t

range_char-not_space : (c : ℕ) → is_range_char c ≡ true → is_space c ≡ false
unfolding is_digit is_space
range_char-not_space c h = ground arith

range_char-not_break : (c : ℕ) → is_range_char c ≡ true → is_break c ≡ false
unfolding is_digit is_break
range_char-not_break c h = ground arith

module _ (t : Text) (h : IsRanges t) where
  ranges-free : All (λ c. is_space c ≡ false) t
  ranges-free =
      All-of-all is_range_char (λ c. is_space c ≡ false) t range_char-not_space
        (normalize-chars (some t) t h)

  ranges-IsLine : IsLine t
  ranges-IsLine =
      All-of-all is_range_char (λ c. is_break c ≡ false) t range_char-not_break
        (normalize-chars (some t) t h)

  key_value-tcp : key_value (codes "tcp=" ++ t) ≡ (codes "tcp", t)
  unfolding key_value
  key_value-tcp =
      ap pair_of
        (strip-Free is_space (codes "tcp=" ++ t) (refl, (refl, (refl, (refl, ranges-free)))))
      ∙ (ap (λ v. (codes "tcp", v)) (strip-Free is_space t ranges-free))

  key_value-udp : key_value (codes "udp=" ++ t) ≡ (codes "udp", t)
  unfolding key_value
  key_value-udp =
      ap pair_of
        (strip-Free is_space (codes "udp=" ++ t) (refl, (refl, (refl, (refl, ranges-free)))))
      ∙ (ap (λ v. (codes "udp", v)) (strip-Free is_space t ranges-free))

read_line-tcp :
    (t : Text) (f : Filter) → IsRanges t → read_line (codes "tcp", t) f ≡ record f { tcp = t }
unfolding read_line read_range
read_line-tcp [] f h = cc
read_line-tcp (c ∷ t) f h = rw (h, read_range)

read_line-udp :
    (t : Text) (f : Filter) → IsRanges t → read_line (codes "udp", t) f ≡ record f { udp = t }
unfolding read_line read_range
read_line-udp [] f h = cc
read_line-udp (c ∷ t) f h = rw (h, read_range)

lines-flag_text :
    (mode tcp udp : Text)
    → IsLine mode
    → IsLine tcp
    → IsLine udp
    → splitlines (flag_text mode tcp udp)
      ≡ (codes "mode=" ++ mode) ∷ (codes "tcp=" ++ tcp) ∷ (codes "udp=" ++ udp) ∷ []
unfolding flag_text is_break nat_eq
lines-flag_text mode tcp udp lm lt lu =
    let rest2 : Text = codes "udp=" ++ udp ++ 10 ∷ [] in
    let rest1 : Text = codes "tcp=" ++ tcp ++ 10 ∷ rest2 in
    splitlines-line (codes "mode=" ++ mode) rest1 (refl, (refl, (refl, (refl, (refl, lm)))))
    ∙ ap (λ r. (codes "mode=" ++ mode) ∷ r)
        (splitlines-line (codes "tcp=" ++ tcp) rest2 (refl, (refl, (refl, (refl, lt))))
          ∙ ap (λ r. (codes "tcp=" ++ tcp) ∷ r)
              (splitlines-line (codes "udp=" ++ udp) [] (refl, (refl, (refl, (refl, lu))))
                ∙ ap (λ r. (codes "udp=" ++ udp) ∷ r) splitlines-nil))

read_game_filter-some :
    (content : Text)
    → read_game_filter (some content) ≡ check_mode (read_lines (splitlines content) defaults)
unfolding read_game_filter
read_game_filter-some content = refl

pub read_lines-cons :
    (line : Text) (lines : List Text) (f : Filter)
    → read_lines (line ∷ lines) f ≡ read_lines lines (read_line (key_value line) f)
unfolding read_lines
read_lines-cons line lines f = refl

pub read_lines-nil : (f : Filter) → read_lines [] f ≡ f
unfolding read_lines
read_lines-nil f = refl

-- The lines of the file set the three fields, whatever stood in them.
read_lines-fields :
    (mode tcp udp : Text) (f : Filter)
    → read_line (key_value (codes "mode=" ++ mode)) f ≡ record f { mode = mode }
    → IsRanges tcp
    → IsRanges udp
    → read_lines ((codes "mode=" ++ mode) ∷ (codes "tcp=" ++ tcp) ∷ (codes "udp=" ++ udp) ∷ []) f
      ≡ record { mode = mode; tcp = tcp; udp = udp }
read_lines-fields mode tcp udp f m ht hu = simp (
  read_lines-cons,
  read_lines-nil,
  m,
  key_value-tcp tcp ht,
  key_value-udp udp hu,
  read_line-tcp tcp (record f { mode = mode }) ht,
  read_line-udp udp (record f { mode = mode; tcp = tcp }) hu,
)

-- The four texts that the program writes as the mode
pub data IsWritten : Text → Type 0 where
  all_mode : (t : Text) → t ≡ codes "all" → IsWritten t
  tcp_mode : (t : Text) → t ≡ codes "tcp" → IsWritten t
  udp_mode : (t : Text) → t ≡ codes "udp" → IsWritten t
  disabled : (t : Text) → t ≡ codes "disabled" → IsWritten t

mode-IsLine :
    (mode : Text) (f : Filter)
    → IsWritten mode
    → (read_line (key_value (codes "mode=" ++ mode)) f ≡ record f { mode = mode }) × IsLine mode
unfolding read_line key_value is_break nat_eq
mode-IsLine mode f (all_mode t e) = rw e ((refl, (refl, (refl, (refl, tt)))))
mode-IsLine mode f (tcp_mode t e) = rw e ((refl, (refl, (refl, (refl, tt)))))
mode-IsLine mode f (udp_mode t e) = rw e ((refl, (refl, (refl, (refl, tt)))))
mode-IsLine mode f (disabled t e) =
    rw e ((refl, (refl, (refl, (refl, (refl, (refl, (refl, (refl, (refl, tt))))))))))

pub read-flag_text :
    (mode tcp udp : Text)
    → IsWritten mode
    → IsRanges tcp
    → IsRanges udp
    → read_game_filter (some (flag_text mode tcp udp))
      ≡ check_mode (record { mode = mode; tcp = tcp; udp = udp })
read-flag_text mode tcp udp w ht hu =
    read_game_filter-some (flag_text mode tcp udp)
    ∙ ap check_mode (
        ap (λ ls. read_lines ls defaults)
          (lines-flag_text mode tcp udp (mode-IsLine mode defaults w).1 (ranges-IsLine tcp ht)
            (ranges-IsLine udp hu))
        ∙ read_lines-fields mode tcp udp defaults (mode-IsLine mode defaults w).0 ht hu)
