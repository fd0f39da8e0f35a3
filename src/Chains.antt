-- ===== src/Chains.antt =====
-- internal/wallet/chain/service.go: the chains and their RPC addresses.
use go_wallet.Prelude.{
  ℕ, Text, Bool, true, false, ◌&&◌, ◌||◌, not, List, [], ◌∷◌, ◌++◌, ◌==◌, leb, if◌then◌else◌,
  select, sort,
}
use go_wallet.Store.{Chain, Db}
use go_wallet.World.{Action, query, query_one, if_no_rows, chain_not_found}
use go_wallet.Queries.{chain_by_id}
pub mod Urls

unfoldable pub get_chain : ℕ → Action Chain
get_chain id = if_no_rows chain_not_found (query_one (chain_by_id id))

unfoldable pub list_chains : Action (List Chain)
list_chains = query (λ db. db.chains)

-- In the order of their numbers.
unfoldable pub get_active_chains : Action (List Chain)
get_active_chains =
    query
      λ db. sort (λ (a b : Chain). leb a.chain_id b.chain_id) (select (λ c. c.is_active) db.chains)

-- `unicode.IsSpace`, on ASCII.
unfoldable pub is_space : ℕ → Bool
is_space c = leb 9 c && leb c 13 || c == b' '

unfoldable pub trim_left : Text → Text
unfolding is_space
trim_left [] = []
trim_left (c ∷ cs) = let rest = trim_left cs in if is_space c then rest else c ∷ cs

abbrev pub is_blank : Text → Bool
is_blank [] = true
is_blank (c ∷ cs) = false

-- Without the spaces at the end.
unfoldable pub trim_right : Text → Text
unfolding is_space
trim_right [] = []
trim_right (c ∷ cs) =
    let rest = trim_right cs in if is_space c && is_blank rest then [] else c ∷ rest

-- `strings.TrimSpace`
unfoldable pub trim_space : Text → Text
unfolding trim_left trim_right
trim_space s = trim_right (trim_left s)

abbrev add_to_first : ℕ → List Text → List Text
add_to_first c [] = (c ∷ []) ∷ []
add_to_first c (s ∷ ss) = (c ∷ s) ∷ ss

-- `strings.Split` at a separator of one character.
unfoldable pub split_at : ℕ → Text → List Text
split_at separator [] = [] ∷ []
split_at separator (c ∷ cs) =
    let rest = split_at separator cs in if c == separator then [] ∷ rest else add_to_first c rest

unfoldable pub keep_urls : List Text → List Text
unfolding trim_space
keep_urls [] = []
keep_urls (url ∷ urls) =
    let rest = keep_urls urls in if is_blank (trim_space url) then rest else trim_space url ∷ rest

unfoldable pub parse_rpc_urls : Text → List Text
unfolding split_at keep_urls
parse_rpc_urls [] = []
parse_rpc_urls (c ∷ cs) = keep_urls (split_at b',' (c ∷ cs))
