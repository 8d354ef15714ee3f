-- ===== src/Network/Gate.antt =====
-- About app/api/internal/access/check/route.ts: the list of allowed addresses in front of the
-- decision on access.
use captivo_access.Prelude.{
  ℕ, ◌<◌, ◌≡◌, ◌↔◌, refl, inl, inr, Bool, true, false, not, ◌&&◌, ◌||◌, Option, none, some, Text,
  lit, text_eq, is_empty, arith, Bool-cases, sym, ◌∙◌,
}
use captivo_access.Prelude.Outcomes.{returns, replies}
use captivo_access.Json.{Fields}
use captivo_access.Database.{Table, tally, find_first}
use captivo_access.Access.Schedule.{Intl}
use captivo_access.Access.Evaluate.{Grant, User, UserStatus, evaluate_access}
use captivo_access.Access.Evaluate.Verdict.{is_of, allows_now, evaluate_access_iff}
use captivo_access.Network.{
  NodeNet, Cached, CheckReply, decided, string_field, check_ids, dataplane_authorized,
  check_request, check_access,
}
use captivo_access.Network.Lists.{permits}
use captivo_access.Network.Memo.{IsCurrent, network_allows-IsCurrent}

-- The data plane lets the user in.
abbrev pub lets_in : CheckReply → Bool
lets_in (decided d) = d.allow
lets_in _ = false

-- The request is one of the data plane's and names a user and a site.
abbrev pub is_complete : Bool → Fields → Bool
is_complete authorized body =
    authorized
    && not (is_empty (string_field (lit "userId") body))
    && not (is_empty (string_field (lit "siteId") body))

and_parts : (a b c : Bool) → (a && b && c) ≡ true → (a ≡ true) × (b ≡ true) × (c ≡ true)
and_parts a b c h = (ground arith, ground arith, ground arith)

and_all : (a b c : Bool) → a ≡ true → b ≡ true → c ≡ true → (a && b && c) ≡ true
and_all a b c ha hb hc = ground arith

module _ {Number : Type 0} (number : Text → Number) (is_integer : Number → Bool)
    (net : NodeNet Number) (intl : Intl) (users : Table User) (grants : Table Grant) where
  -- What the route answers, by its conditions.
  check_request-lets_in :
      (authorized : Bool) (body : Fields) (allowlist : Text) (now : ℕ) (us : users.Store)
      (gs : grants.Store) (cached : Option (Cached number is_integer net))
      → IsCurrent number is_integer net cached
      → lets_in
          (check_request number is_integer net intl users grants authorized body allowlist now us gs
            cached).0
        ≡ (is_complete authorized body
            && permits number is_integer net allowlist (string_field (lit "clientIp") body)
            && (evaluate_access intl users grants
                (string_field (lit "userId") body)
                (string_field (lit "siteId") body)
                now
                us
                gs).allow)
  unfolding check_request captivo_access.Prelude.Outcomes.◌>>=◌
  check_request-lets_in false body allowlist now us gs cached h = refl
  check_request-lets_in true body allowlist now us gs cached h =
      let user_id = string_field (lit "userId") body in
      let site_id = string_field (lit "siteId") body in
      let ip = string_field (lit "clientIp") body in
      let (answer, kept) = network_allows-IsCurrent number is_integer net allowlist ip cached h in
      elim (Bool-cases (is_empty user_id || is_empty site_id)) [
        | inl missing ↦ rw (missing, check_request, check_ids) (ground arith)
        | inr named ↦ elim (Bool-cases (permits number is_integer net allowlist ip)) [
          | inl fine ↦ rw (named, check_request, check_ids, answer ∙ fine, fine) (ground arith)
          | inr bad ↦ rw (named, check_request, check_ids, answer ∙ bad, bad) (ground arith)
        ]
      ]

  -- The data plane lets a request in exactly where its header carries the configured secret, it
  -- names a user and a site, the list of allowed addresses permits the address of the client, the
  -- user is found and active, and a grant of that user for that site allows access now. What is kept
  -- of the list from earlier requests does not matter, as long as it is the list of its own text.
  pub check_access_iff :
      (bytes : Text → Text) (secret header : Option Text) (body : Fields) (allowlist : Text)
      (now : ℕ) (us : users.Store) (gs : grants.Store)
      (cached : Option (Cached number is_integer net))
      → IsCurrent number is_integer net cached
      → (lets_in
            (check_access number is_integer net intl users grants bytes secret header body allowlist
              now us gs cached).0
          ≡ true)
        ↔ ((is_complete (dataplane_authorized bytes secret header) body ≡ true)
            × (permits number is_integer net allowlist (string_field (lit "clientIp") body) ≡ true)
            × (u : User) × (find_first users
                  (λ u. text_eq u.id (string_field (lit "userId") body))
                  us
                ≡ some u)
            × (u.status ≡ UserStatus.active)
            × (0
                < tally grants
                    (λ g.
                      is_of (string_field (lit "userId") body) (string_field (lit "siteId") body) g
                      && allows_now intl now g)
                    gs))
  unfolding check_access
  check_access_iff bytes secret header body allowlist now us gs cached h =
      let same =
        check_request-lets_in (dataplane_authorized bytes secret header) body allowlist now us gs
          cached h in
      let access =
        evaluate_access_iff intl now users grants (string_field (lit "userId") body)
          (string_field (lit "siteId") body) us gs in
      (
        (λ e.
            let parts = and_parts _ _ _ (sym same ∙ e) in
            let (u, found, is_active, n) = access.0 parts.2 in
            (parts.0, parts.1, u, found, is_active, n)),
        (λ (complete, permitted, u, found, is_active, n).
            same ∙ and_all _ _ _ complete permitted (access.1 (u, found, is_active, n))),
      )
