-- ===== src/Network/Lists.antt =====
-- About `validateAllowlist` and `build` of lib/net/cidr.ts: what a list of entries blocks and lets
-- through.
use captivo_access.Prelude.{
  ◌≡◌, refl, inl, inr, Bool, true, false, not, ◌&&◌, ◌||◌, List, [], ◌∷◌, Option, none, some, Text,
  is_some, any, select, arith, Bool-cases, Option-cases, sym, ap, ◌∙◌, if◌then◌else◌,
}
use captivo_access.Prelude.Slices.{List-cases}
use captivo_access.Network.{
  Family, ipv4, NodeNet, entries_of, cut_at_slash, normalize_ip, added, add_subnet_entry,
  add_address_entry, add_entry, invalid_entries, validate_allowlist, add_all, build, checked,
}

module _ {Number : Type 0} (number : Text → Number) (is_integer : Number → Bool)
    (net : NodeNet Number) where
  -- An entry is good: an address, or a subnet with an integral prefix in range.
  abbrev pub is_good : Text → Bool
  is_good e = elim (cut_at_slash e) [
    | none ↦ elim (net.is_ip e) [ none ↦ false | some f ↦ net.takes_address e f ]
    | some (a, s) ↦ elim (net.is_ip a) [
      | none ↦ false
      | some f ↦ is_integer (number s) && net.takes_subnet a (number s) f
    ]
  ]

  -- What an entry covers.
  abbrev pub reaches : Text → Family → Text → Bool
  reaches ip g e = elim (cut_at_slash e) [
    | none ↦ elim (net.is_ip e) [ none ↦ false | some f ↦ net.is_address e f ip g ]
    | some (a, s) ↦ elim (net.is_ip a) [ none ↦ false | some f ↦ net.in_subnet a (number s) f ip g ]
  ]

  abbrev pub covers : Text → Family → Text → Bool
  covers ip g e = is_good e && reaches ip g e

  -- The list lets the address through: no entry is good, or the address is one and a good entry
  -- covers it.
  abbrev pub permits : Text → Text → Bool
  permits raw ip = elim (any is_good (entries_of raw)) [
    | false ↦ true
    | true ↦ elim (net.is_ip (normalize_ip ip)) [
      | none ↦ false
      | some g ↦ any (covers (normalize_ip ip) g) (entries_of raw)
    ]
  ]

  -- A rule that was offered to a list.
  abbrev IsOffered : Text → Family → Bool → Bool → net.BlockList → net.BlockList × Bool → Type 0
  IsOffered ip g good reach b x =
      (x.1 ≡ good) × (net.check ip g x.0 ≡ ((good && reach) || net.check ip g b))

  added-IsOffered :
      (ip : Text) (g : Family) (good reach : Bool) (b : net.BlockList) (o : Option net.BlockList)
      → is_some o ≡ good
      → ((b' : net.BlockList) → o ≡ some b' → net.check ip g b' ≡ (reach || net.check ip g b))
      → IsOffered ip g good reach b (added number is_integer net b o)
  added-IsOffered ip g good reach b none e h = rw (sym e) (refl, refl)
  added-IsOffered ip g good reach b (some b') e h = rw (sym e) (refl, h b' refl)

  add_address_entry-IsOffered :
      (ip : Text) (g : Family) (e : Text) (b : net.BlockList)
      → cut_at_slash e ≡ none
      → IsOffered ip g (is_good e) (reaches ip g e) b (add_entry number is_integer net e b)
  unfolding add_entry add_address_entry
  add_address_entry-IsOffered ip g e b whole = elim (Option-cases (net.is_ip e)) [
    | inl no_ip ↦ rw (whole, no_ip, add_entry, add_address_entry, is_good, reaches) (refl, refl)
    | inr (f, found) ↦
        rw (whole, found, add_entry, add_address_entry, is_good, reaches)
          (added-IsOffered ip g (net.takes_address e f) (net.is_address e f ip g) b
            (net.add_address e f b) (net.takes-address e f b)
            (λ b' stored. net.check-address e f b b' ip g stored))
  ]

  add_subnet_entry-IsOffered :
      (ip : Text) (g : Family) (e a s : Text) (b : net.BlockList)
      → cut_at_slash e ≡ some (a, s)
      → IsOffered ip g (is_good e) (reaches ip g e) b (add_entry number is_integer net e b)
  unfolding add_entry add_subnet_entry
  add_subnet_entry-IsOffered ip g e a s b cut = elim (Option-cases (net.is_ip a)) [
    | inl no_ip ↦ rw (cut, no_ip, add_entry, add_subnet_entry, is_good, reaches) (refl, refl)
    | inr (f, found) ↦ elim (Bool-cases (is_integer (number s))) [
      | inr broken ↦
          rw (cut, found, broken, add_entry, add_subnet_entry, is_good, reaches) (refl, refl)
      | inl whole ↦
          rw (cut, found, whole, add_entry, add_subnet_entry, is_good, reaches)
            (added-IsOffered ip g (net.takes_subnet a (number s) f)
              (net.in_subnet a (number s) f ip g) b (net.add_subnet a (number s) f b)
              (net.takes-subnet a (number s) f b)
              (λ b' stored. net.check-subnet a (number s) f b b' ip g stored))
    ]
  ]

  -- `addEntry` says whether the entry is good, and the list then blocks what a good one covers.
  pub add_entry-IsOffered :
      (ip : Text) (g : Family) (e : Text) (b : net.BlockList)
      → IsOffered ip g (is_good e) (reaches ip g e) b (add_entry number is_integer net e b)
  add_entry-IsOffered ip g e b = elim (Option-cases (cut_at_slash e)) [
    | inl whole ↦ add_address_entry-IsOffered ip g e b whole
    | inr ((a, s), cut) ↦ add_subnet_entry-IsOffered ip g e a s b cut
  ]

  add_all-found :
      (es : List Text) (b : net.BlockList) (found : Bool)
      → (add_all number is_integer net es b found).1 ≡ (any is_good es || found)
  unfolding add_all
  add_all-found [] b found = refl
  add_all-found (e ∷ es) b found =
      let x = add_entry number is_integer net e b in
      let good : x.1 ≡ is_good e = (add_entry-IsOffered e ipv4 e b).0 in
      let rest = add_all-found es x.0 (x.1 || found) in ground (arith, good, rest)

  add_all-check :
      (ip : Text) (g : Family) (es : List Text) (b : net.BlockList) (found : Bool)
      → net.check ip g (add_all number is_integer net es b found).0
        ≡ (any (covers ip g) es || net.check ip g b)
  unfolding add_all
  add_all-check ip g [] b found = refl
  add_all-check ip g (e ∷ es) b found =
      let x = add_entry number is_integer net e b in
      let one : net.check ip g x.0 ≡ (covers ip g e || net.check ip g b) =
        (add_entry-IsOffered ip g e b).1 in
      let rest = add_all-check ip g es x.0 (x.1 || found) in ground (arith, one, rest)

  -- No entry, no restriction.
  pub permits_empty : (ip : Text) → permits [] ip ≡ true
  unfolding entries_of captivo_access.Network.split_runs captivo_access.Prelude.trim
      captivo_access.Prelude.trim_start
  permits_empty ip = refl

  -- What a built list answers.
  pub checked-build :
      (raw ip : Text)
      → checked number is_integer net (build number is_integer net raw) ip ≡ permits raw ip
  unfolding checked build
  checked-build raw ip = elim (List-cases (entries_of raw)) [
    | inl none_left ↦ rw (permits, none_left, build, checked) refl
    | inr (e, es, some_left) ↦
        let x = add_all number is_integer net (e ∷ es) net.fresh false in
        let found : x.1 ≡ (any is_good (e ∷ es) || false) =
          add_all-found (e ∷ es) net.fresh false in
        elim (Bool-cases (any is_good (e ∷ es))) [
          | inr bad ↦
              let unset : x.1 ≡ false = ground arith in
              rw (permits, some_left, build, unset, bad, checked) refl
          | inl good ↦
              let kept : x.1 ≡ true = ground arith in
              elim (Option-cases (net.is_ip (normalize_ip ip))) [
                | inl no_ip ↦ rw (permits, some_left, build, kept, good, checked, no_ip) refl
                | inr (g, is_ip) ↦
                    let blocks = add_all-check (normalize_ip ip) g (e ∷ es) net.fresh false in
                    let nothing = net.check-fresh (normalize_ip ip) g in
                    rw (permits, some_left, build, kept, good, checked, is_ip)
                      (ground (arith, blocks, nothing))
              ]
        ]
  ]

  -- `validateAllowlist` reports the entries that are not good.
  invalid_entries-select :
      (es : List Text) (b : net.BlockList)
      → invalid_entries number is_integer net es b ≡ select (λ e. not (is_good e)) es
  unfolding invalid_entries
  invalid_entries-select [] b = refl
  invalid_entries-select (e ∷ es) b =
      let x = add_entry number is_integer net e b in
      let good : x.1 ≡ is_good e = (add_entry-IsOffered e ipv4 e b).0 in
      let rest = invalid_entries-select es x.0 in
      elim (Bool-cases (is_good e)) [
        | inl valid ↦ rw (good ∙ valid, valid, rest) refl
        | inr bad ↦ rw (good ∙ bad, bad, rest) refl
      ]

  -- `validateAllowlist` reports exactly the entries that a list takes no rule from.
  pub validate_allowlist-select :
      (raw : Text)
      → validate_allowlist number is_integer net raw
        ≡ select (λ e. not (is_good e)) (entries_of raw)
  unfolding validate_allowlist
  validate_allowlist-select raw = invalid_entries-select (entries_of raw) net.fresh
