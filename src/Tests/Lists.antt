-- ===== src/Tests/Lists.antt =====
-- The user's domains at concrete data. The IDNA codec of the tests leaves every text as it is.
use zapret_gui.Base.{
  ◌≡◌, refl, not, ◌&&◌, Option, some, List, [], ◌∷◌, map, text_eq, nat_eq, contains, All,
}
use zapret_gui.Base.Sort.{IsSorted}
use zapret_gui.Text.{Text, codes}
use zapret_gui.Domains.{normalize_domain, write_user_domains, read_user_domains, text_ltb, is_nil}
use zapret_gui.Domains.Labels.{IsDomainOrEmpty, normalize_domain-IsDomainOrEmpty}
use zapret_gui.Domains.Stored.{IsDomain, write-IsDomain, read-write, write_user_domains_lem}

abbrev idna : Text → Option Text
idna s = some s

abbrev entered : List Text
entered = codes "https://www.You.be/x" ∷ codes "a.org" ∷ codes "you.be" ∷ codes "# note" ∷ []

written_list : (write_user_domains idna entered).0 ≡ codes "a.org" ∷ codes "you.be" ∷ []
unfolding write_user_domains nat_eq normalize_domain
written_list = refl

normalize_domain-IsDomainOrEmpty_example :
    IsDomainOrEmpty (normalize_domain idna (codes "http://A.b:80"))
normalize_domain-IsDomainOrEmpty_example =
    normalize_domain-IsDomainOrEmpty idna (codes "http://A.b:80")

write-IsDomain_example : All IsDomain (write_user_domains idna entered).0
write-IsDomain_example = write-IsDomain idna entered

read-write_example :
    read_user_domains (some (write_user_domains idna entered).1)
    ≡ (write_user_domains idna entered).0
read-write_example = read-write idna entered

write_user_domains_lem_example :
    IsSorted text_ltb (write_user_domains idna entered).0
    × ((d : Text)
        → contains (write_user_domains idna entered).0 d
          ≡ (contains (map (normalize_domain idna) entered) d && not (is_nil d)))
write_user_domains_lem_example = write_user_domains_lem idna entered
