-- ===== src/Event/KeyLaws.antt =====
-- Keys and their parts: `generate_key` and `parse_key` are inverse to one another.
use Prim.Native.Char.{Char}
use text.Mathlib.TextLemmas.{nil-append, cons-append}
use sieve.Prelude.{String, ◌<>◌, ◌≡◌, refl, ◌∙◌, ap, false, List, [], ◌∷◌, ok, join, split, arith}
use sieve.Prelude.Split.{has_code, join-split, split-append, split-lacking}
use sieve.Event.Keys.{generate_key, parse_key, three}

abbrev slash : Char
slash = "/"

slash-append : (s : String) → "/" <> s ≡ String.◌∷◌ slash s
slash-append s = cons-append slash "" s ∙ ap (String.◌∷◌ slash) (nil-append s)

tokens-three :
    (tokens : List String) (a b c : String) → three tokens ≡ ok (a, b, c) → a ∷ b ∷ c ∷ [] ≡ tokens
tokens-three [] a b c h = cc
tokens-three (x ∷ []) a b c h = cc
tokens-three (x ∷ y ∷ []) a b c h = cc
tokens-three (x ∷ y ∷ z ∷ []) a b c h = ground arith
tokens-three (x ∷ y ∷ z ∷ w ∷ ts) a b c h = cc

-- A key's three parts are read back, if neither the type nor the namespace nor the name has a slash.
pub parse_key-generate_key :
    (rtype namespace name : String)
    → has_code b'/' rtype ≡ false
    → has_code b'/' namespace ≡ false
    → has_code b'/' name ≡ false
    → parse_key (generate_key rtype namespace name) ≡ ok (rtype, namespace, name)
unfolding parse_key generate_key
parse_key-generate_key rtype namespace name hr hn hm = ap three (
    ap (split b'/') (ap (λ s. rtype <> s) (slash-append (namespace <> ("/" <> name))))
    ∙ split-append b'/' slash rtype (namespace <> ("/" <> name)) refl hr
    ∙ ap (λ s. rtype ∷ split b'/' (namespace <> s)) (slash-append name)
    ∙ ap (λ ts. rtype ∷ ts) (split-append b'/' slash namespace name refl hn)
    ∙ ap (λ ts. rtype ∷ namespace ∷ ts) (split-lacking b'/' name hm))

-- Every key that parses is the key of the parts that were read.
pub generate_key-parse_key :
    (key rtype namespace name : String)
    → parse_key key ≡ ok (rtype, namespace, name)
    → generate_key rtype namespace name ≡ key
unfolding parse_key generate_key
generate_key-parse_key key rtype namespace name h =
    ap (join "/") (tokens-three (split b'/' key) rtype namespace name h) ∙ join-split slash key
