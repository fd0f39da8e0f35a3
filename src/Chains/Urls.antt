-- ===== src/Chains/Urls.antt =====
-- internal/wallet/chain/service.go, `ParseRPCURLs`: what comes out of a list of addresses.
use mathlib.Core.List.{append_assoc, cons-ne-nil}
use go_wallet.Prelude.{
  ℕ, Text, false, not, List, [], ◌∷◌, ◌++◌, ◌==◌, ◌≡◌, ◌≢◌, refl, arith, any, ap, ◌∙◌, sym,
}
use go_wallet.Chains.{
  is_space, trim_left, trim_right, trim_space, is_blank, split_at, keep_urls, parse_rpc_urls,
}

-- An address in the form that is used: not empty, without commas and spaces.
pub record IsUrl (url : Text) : Type 0 where
  pub filled : is_blank url ≡ false
  pub no_comma : any (λ (c : ℕ). c == b',') url ≡ false
  pub no_space : any is_space url ≡ false

pub data AllUrls : List Text → Type 0 where
  none_left : AllUrls []
  and_url : (url : Text) (urls : List Text) → IsUrl url → AllUrls urls → AllUrls (url ∷ urls)

-- The addresses with commas and spaces between them.
abbrev pub join_urls : Text → List Text → Text
join_urls gap [] = []
join_urls gap (url ∷ []) = url
join_urls gap (url ∷ next ∷ urls) = url ++ b',' ∷ (gap ++ join_urls gap (next ∷ urls))

trim_left_none : (s : Text) → any is_space s ≡ false → trim_left s ≡ s
unfolding trim_left any
trim_left_none [] h = refl
trim_left_none (c ∷ cs) h = ground arith

trim_right_none : (s : Text) → any is_space s ≡ false → trim_right s ≡ s
unfolding trim_right any
trim_right_none [] h = refl
trim_right_none (c ∷ cs) h = ground (arith, trim_right_none cs)

split_at-none : (s : Text) → any (λ (c : ℕ). c == b',') s ≡ false → split_at b',' s ≡ s ∷ []
unfolding split_at any
split_at-none [] h = refl
split_at-none (c ∷ cs) h = ground (arith, split_at-none cs)

split_at-append :
    (s rest : Text)
    → any (λ (c : ℕ). c == b',') s ≡ false
    → split_at b',' (s ++ b',' ∷ rest) ≡ s ∷ split_at b',' rest
unfolding split_at any
split_at-append [] rest h = ground arith
split_at-append (c ∷ cs) rest h = ground (arith, split_at-append cs rest)

-- What may stand between a comma and the next address.
abbrev pub AllSpaces : Text → Type 0
AllSpaces gap = any (λ c. not (is_space c)) gap ≡ false

trim_left-append : (gap url : Text) → AllSpaces gap → trim_left (gap ++ url) ≡ trim_left url
unfolding trim_left any
trim_left-append [] url h = refl
trim_left-append (c ∷ cs) url h = ground (arith, trim_left-append cs url)

no_comma_before :
    (gap url : Text)
    → AllSpaces gap
    → any (λ (c : ℕ). c == b',') (gap ++ url) ≡ any (λ (c : ℕ). c == b',') url
unfolding any is_space
no_comma_before [] url h = refl
no_comma_before (c ∷ cs) url h = ground (arith, no_comma_before cs url)

trim_space-url : (gap url : Text) → AllSpaces gap → IsUrl url → trim_space (gap ++ url) ≡ url
unfolding trim_space
trim_space-url gap url h u =
    ap trim_right (trim_left-append gap url h ∙ trim_left_none url u.no_space)
    ∙ trim_right_none url u.no_space

-- One piece with an address in it is kept as the address.
keep_urls-url :
    (gap url : Text) (rest : List Text)
    → AllSpaces gap
    → IsUrl url
    → keep_urls ((gap ++ url) ∷ rest) ≡ url ∷ keep_urls rest
unfolding keep_urls
keep_urls-url gap url rest h u = ground (arith, trim_space-url gap url h u, u.filled)

keep_urls-join_urls :
    (lead gap : Text) (urls : List Text)
    → AllSpaces lead
    → AllSpaces gap
    → AllUrls urls
    → urls ≢ []
    → keep_urls (split_at b',' (lead ++ join_urls gap urls)) ≡ urls
unfolding keep_urls
keep_urls-join_urls lead gap [] hl hg AllUrls.none_left some_url = absurd (some_url refl)
keep_urls-join_urls lead gap (url ∷ []) hl hg (AllUrls.and_url _ _ u _) some_url =
    ap keep_urls (split_at-none (lead ++ url) (no_comma_before lead url hl ∙ u.no_comma))
    ∙ keep_urls-url lead url [] hl u
keep_urls-join_urls lead gap (url ∷ next ∷ urls) hl hg (AllUrls.and_url _ _ u us) some_url =
    let tail = gap ++ join_urls gap (next ∷ urls) in
    let pieces =
      ap (split_at b',') (sym (append_assoc lead url (b',' ∷ tail)))
      ∙ split_at-append (lead ++ url) tail (no_comma_before lead url hl ∙ u.no_comma) in
    ap keep_urls pieces
    ∙ keep_urls-url lead url (split_at b',' tail) hl u
    ∙ ap (λ us. url ∷ us)
        (keep_urls-join_urls gap gap (next ∷ urls) hg hg us (cons-ne-nil next urls))

-- Addresses without spaces and commas, joined by a comma and any spaces, are parsed as they were.
parse_rpc_urls-join_urls :
    (gap : Text) (urls : List Text)
    → AllSpaces gap
    → AllUrls urls
    → parse_rpc_urls (join_urls gap urls) ≡ urls
unfolding parse_rpc_urls any keep_urls split_at trim_space trim_left trim_right
parse_rpc_urls-join_urls gap [] h all_urls = refl
parse_rpc_urls-join_urls gap (url ∷ urls) h all_urls =
    whole (join_urls gap (url ∷ urls))
      (keep_urls-join_urls [] gap (url ∷ urls) refl h all_urls (cons-ne-nil url urls))
  where
    whole : (s : Text) → keep_urls (split_at b',' s) ≡ url ∷ urls → parse_rpc_urls s ≡ url ∷ urls
    whole [] e = absurd (cons-ne-nil url urls (sym e))
    whole (c ∷ cs) e = e
