-- ===== src/Network/Memo.antt =====
-- About `ipAllowed` of lib/net/cidr.ts and the list that it keeps from one call to the next.
use captivo_access.Prelude.{
  ◌≡◌, refl, inl, inr, Bool, List, [], ◌∷◌, Option, none, some, Text, text_eq, text_eq_iff, map,
  Bool-cases, sym, ap, ◌∙◌,
}
use captivo_access.Network.{NodeNet, build, Cached, refreshed, checked, ip_allowed, network_allows}
use captivo_access.Network.Lists.{permits, permits_empty, checked-build}

module _ {Number : Type 0} (number : Text → Number) (is_integer : Number → Bool)
    (net : NodeNet Number) where
  -- What is kept is the list of the text that is kept with it.
  abbrev pub IsCurrent : Option (Cached number is_integer net) → Type 0
  IsCurrent none = Unit
  IsCurrent (some c) = c.list ≡ build number is_integer net c.raw

  refreshed-IsCurrent :
      (raw : Text) (cached : Option (Cached number is_integer net))
      → IsCurrent cached
      → ((refreshed number is_integer net raw cached).list ≡ build number is_integer net raw)
        × IsCurrent (some (refreshed number is_integer net raw cached))
  unfolding refreshed
  refreshed-IsCurrent raw none h = (refl, refl)
  refreshed-IsCurrent raw (some c) h = elim (Bool-cases (text_eq c.raw raw)) [
    | inl same ↦ rw same (h ∙ ap (build number is_integer net) ((text_eq_iff _ _).0 same), h)
    | inr other ↦ rw other (refl, refl)
  ]

  -- With a current list, `ipAllowed` answers by the text alone and leaves a current list.
  pub ip_allowed-IsCurrent :
      (raw ip : Text) (cached : Option (Cached number is_integer net))
      → IsCurrent cached
      → ((ip_allowed number is_integer net raw ip cached).0 ≡ permits number is_integer net raw ip)
        × IsCurrent (ip_allowed number is_integer net raw ip cached).1
  unfolding ip_allowed
  ip_allowed-IsCurrent raw ip cached h =
      let (list_of, kept) = refreshed-IsCurrent raw cached h in
      (
        ap (λ l. checked number is_integer net l ip) list_of
            ∙ checked-build number is_integer net raw ip,
        kept,
      )

  -- The same for the test of the route, which asks nothing of an empty text.
  pub network_allows-IsCurrent :
      (raw ip : Text) (cached : Option (Cached number is_integer net))
      → IsCurrent cached
      → ((network_allows number is_integer net raw ip cached).0
          ≡ permits number is_integer net raw ip)
        × IsCurrent (network_allows number is_integer net raw ip cached).1
  unfolding network_allows
  network_allows-IsCurrent [] ip cached h = (sym (permits_empty number is_integer net ip), h)
  network_allows-IsCurrent (c ∷ s) ip cached h = ip_allowed-IsCurrent (c ∷ s) ip cached h

  -- The answers to a sequence of calls, each a text of allowed addresses and an address.
  abbrev pub answers : List (Text × Text) → Option (Cached number is_integer net) → List Bool
  answers [] cached = []
  answers ((raw, ip) ∷ calls) cached =
      let x = ip_allowed number is_integer net raw ip cached in x.0 ∷ answers calls x.1

  answers_from :
      (calls : List (Text × Text)) (cached : Option (Cached number is_integer net))
      → IsCurrent cached
      → answers calls cached ≡ map (λ (raw, ip). permits number is_integer net raw ip) calls
  answers_from [] cached h = refl
  answers_from ((raw, ip) ∷ calls) cached h =
      let (answer, kept) = ip_allowed-IsCurrent raw ip cached h in
      rw (answer, answers_from calls (ip_allowed number is_integer net raw ip cached).1 kept) refl

  -- Whatever sequence of calls `ipAllowed` gets from the start, with texts that change in between,
  -- each is answered as its text and its address alone say: the list that is kept changes no answer.
  pub ip_allowed_memo :
      (calls : List (Text × Text))
      → answers calls none ≡ map (λ (raw, ip). permits number is_integer net raw ip) calls
  ip_allowed_memo calls = answers_from calls none tt
