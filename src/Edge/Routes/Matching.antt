-- ===== src/Edge/Routes/Matching.antt =====
-- Which route takes a request.
use myzerossl.Prelude.{
  true, ◌||◌, ◌≡◌, ◌↔◌, ◌⊎◌, inl, inr, refl, sym, ap, List, [], ◌∷◌, ◌++◌, Option, none, some, any,
  any-Exists, Exists, or-exact, and-exact, not-exact, All, arith, Bool-cases, drop, length,
  is_empty,
}
use myzerossl.Text.{Text, has_prefix}
use myzerossl.Text.Laws.{has_prefix_sound, has_prefix-append}
use myzerossl.Map.{member}
use myzerossl.Edge.Http.{Request}
use myzerossl.Edge.Certificates.{clean_host}
use myzerossl.Edge.Certificates.Names.{NameFits}
use myzerossl.Edge.Routes.{PluginRoute, host_set_matches, matches, match_route}
use myzerossl.Edge.Routes.Hosts.{host_set_matches_exact}

member-Exists : (k : Text) (s : List Text) → (member k s ≡ true) ↔ Exists (λ j. j ≡ k) s
unfolding member
member-Exists k [] = (λ e. cc, λ e. absurd e)
member-Exists k (j ∷ s) =
    let rest = member-Exists k s in
    (
      (λ e. ground (arith, rest.0)),
      (λ e. elim e [ inl h ↦ ground arith | inr h ↦ let found = rest.1 h in ground arith ]),
    )

prefix-exact :
    (path prefix : Text)
    → (has_prefix prefix path ≡ true) ↔ ((rest : Text) × (path ≡ prefix ++ rest))
prefix-exact path prefix = (
  (λ e. (drop (length prefix) path, sym (has_prefix_sound prefix path e))),
  (λ h. rw h.1 (has_prefix-append prefix h.0)),
)

-- A route without hosts takes every host; one without a fitting path takes no request.
abbrev pub Fits : PluginRoute → Request → Type 0
Fits route req =
    ((route.hosts ≡ []) ⊎ Exists (λ pattern. NameFits pattern (clean_host req.host)) route.hosts)
    × (Exists (λ path. path ≡ req.path) route.exact_paths
        ⊎ Exists (λ prefix. (rest : Text) × (req.path ≡ prefix ++ rest)) route.path_prefixes)

is_empty-exact : (hosts : List Text) → (is_empty hosts ≡ true) ↔ (hosts ≡ [])
is_empty-exact [] = ((λ e. refl), (λ e. refl))
is_empty-exact (host ∷ hosts) = ((λ e. cc), (λ e. cc))

-- A route takes a request exactly if it has no hosts or one that fits the cleaned host of the request,
-- and an exact path that is the request's or a prefix that the request's path begins with.
pub matches_exact :
    (route : PluginRoute) (req : Request) → (matches route req ≡ true) ↔ Fits route req
unfolding matches
matches_exact route req =
    let host = clean_host req.host in
    let prefixes =
      any-Exists (λ prefix. (rest : Text) × (req.path ≡ prefix ++ rest))
        (λ prefix. has_prefix prefix req.path) route.path_prefixes (prefix-exact req.path) in
    and-exact (is_empty route.hosts || host_set_matches route.hosts host)
      (member req.path route.exact_paths
        || any (λ prefix. has_prefix prefix req.path) route.path_prefixes)
      (or-exact (is_empty route.hosts) (host_set_matches route.hosts host)
        (is_empty-exact route.hosts) (host_set_matches_exact route.hosts host))
      (or-exact (member req.path route.exact_paths)
        (any (λ prefix. has_prefix prefix req.path) route.path_prefixes)
        (member-Exists req.path route.exact_paths) prefixes)

-- The first route of the list that fits, or none if none does.
abbrev pub IsChoice : List PluginRoute → Request → Option PluginRoute → Type 0
IsChoice routes req none = All (λ route. ¬ Fits route req) routes
IsChoice routes req (some route) =
    (earlier : List PluginRoute) × (later : List PluginRoute) × (routes ≡ earlier ++ route ∷ later)
    × Fits route req
    × All (λ r. ¬ Fits r req) earlier

later :
    (r : PluginRoute) (routes : List PluginRoute) (req : Request) (o : Option PluginRoute)
    → ¬ Fits r req
    → IsChoice routes req o
    → IsChoice (r ∷ routes) req o
later r routes req none no_fit h = (no_fit, h)
later r routes req (some route) no_fit (before, after, shape, fits, none_before) =
    (r ∷ before, after, ap (λ l. r ∷ l) shape, fits, (no_fit, none_before))

-- A request goes to the first route of the list that takes it, and past the routes if none does.
pub match_route-IsChoice :
    (routes : List PluginRoute) (req : Request) → IsChoice routes req (match_route routes req)
unfolding match_route
match_route-IsChoice [] req = tt
match_route-IsChoice (route ∷ routes) req = elim (Bool-cases (matches route req)) [
  | inl e ↦ rw e ([], routes, refl, (matches_exact route req).0 e, tt)
  | inr e ↦ rw e (
      later route routes req (match_route routes req)
        (not-exact (matches route req) (matches_exact route req) e)
        (match_route-IsChoice routes req))
]
