-- ===== src/Handler/Laws.antt =====
-- The documented behaviour of header maps and codecs that the proofs on intermediate-proxy/src/handler.rs
-- and simple-proxy/src/handler.rs rely on, and what it gives for the loops over headers.
use proxy_systems.Common.{
  ◌≡◌, refl, sym, ap, ◌∙◌, Bool, true, false, List, [], ◌∷◌, Option, none, some, if◌then◌else◌,
  arith, inl, inr, Bool-cases,
}
use proxy_systems.Common.Text.{Text, text_eq, has_text, text_eq_iff}
use proxy_systems.Http.{Bytes, HeaderApi}
use proxy_systems.Shared.{Codec, append_unless, decode_target, http_only, is_http_url}
use proxy_systems.Upstream.{insert_all, with_extra}
use mathlib.Core.Option

-- What decoding says of encoding, in base64 and in UTF-8.
pub record CodecLaws (codec : Codec) : Type 0 where
  pub decode-encode : (b : Bytes) → codec.decode (codec.encode b) ≡ some b
  pub from_utf8-bytes_of : (t : Text) → codec.from_utf8 (codec.bytes_of t) ≡ some t

pub decode_target-encode :
    (codec : Codec)
    → CodecLaws codec
    → (t : Text) → is_http_url t ≡ true
    → decode_target codec (codec.encode (codec.bytes_of t)) ≡ some t
unfolding decode_target http_only Option.bind
decode_target-encode codec laws t e =
    rw (laws.decode-encode (codec.bytes_of t), laws.from_utf8-bytes_of t, e) refl

-- The first entry of a name.
unfoldable pub first : {V : Type 0} → Text → List (Text × V) → Option V
first k [] = none
first k ((n, v) ∷ more) = let rest = first k more in if text_eq n k then some v else rest

-- The first of two values that is there.
abbrev pub or_else : {V : Type 0} → Option V → Option V → Option V
or_else none b = b
or_else (some a) b = some a

-- What `HeaderMap` documents of a lookup after an append or an insert, and that base64 text is a valid
-- value of a header.
pub record HeaderLaws (api : HeaderApi) (codec : Codec) : Type 0 where
  pub get-first :
      (k : Text) (h : api.Headers) → api.get k h ≡ Option.bind (first k (api.entries h)) api.to_str
  pub first-empty : (k : Text) → first k (api.entries api.empty) ≡ none
  pub first-append :
      (k n : Text) (v : api.HeaderValue) (h : api.Headers)
      → first k (api.entries (api.append n v h))
        ≡ or_else (first k (api.entries h)) (if text_eq n k then some v else none)
  pub first-insert :
      (k n : Text) (v : api.HeaderValue) (h : api.Headers)
      → first k (api.entries (api.insert n v h))
        ≡ (if text_eq n k then some v else first k (api.entries h))
  pub first-insert_valid :
      (k n v : Text) (h : api.Headers)
      → text_eq n k ≡ false
      → first k (api.entries (api.insert_valid n v h)) ≡ first k (api.entries h)
  pub get-insert_valid :
      (k : Text) (b : Bytes) (h : api.Headers)
      → api.get k (api.insert_valid k (codec.encode b) h) ≡ some (codec.encode b)

or_else-none : {V : Type 0} → (a : Option V) → or_else a none ≡ a
or_else-none none = refl
or_else-none (some a) = refl

or_else-push :
    {V : Type 0}
    → (a : Option V) (b : Bool) (v : V) (r : Option V)
    → or_else (or_else a (if b then some v else none)) r ≡ or_else a (if b then some v else r)
or_else-push none true v r = refl
or_else-push none false v r = refl
or_else-push (some a) b v r = refl

-- A skipped name is not one that is not skipped.
differs :
    (skip : List Text) (n k : Text)
    → has_text skip n ≡ true
    → has_text skip k ≡ false
    → text_eq n k ≡ false
differs skip n k s e = elim (Bool-cases (text_eq n k)) [
  | inr f ↦ f
  | inl f ↦
      let same : has_text skip n ≡ has_text skip k = ap (has_text skip) ((text_eq_iff n k).0 f) in
      cc
]

differs' :
    (skip : List Text) (n k : Text)
    → has_text skip n ≡ false
    → has_text skip k ≡ true
    → text_eq n k ≡ false
differs' skip n k s e = elim (Bool-cases (text_eq n k)) [
  | inr f ↦ f
  | inl f ↦
      let same : has_text skip n ≡ has_text skip k = ap (has_text skip) ((text_eq_iff n k).0 f) in
      cc
]

module _ (api : HeaderApi) (codec : Codec) (laws : CodecLaws codec)
    (header_laws : HeaderLaws api codec) where
  open api use {Headers, HeaderValue, entries, empty, insert, from_static, get}

  -- The extra headers, if any, do not set the name.
  abbrev pub Lacks : Text → Option Headers → Type 0
  Lacks k none = Unit
  Lacks k (some h) = first k (entries h) ≡ none

  pub append_unless-first :
      (skip : List Text) (k : Text) (es : List (Text × HeaderValue)) (acc : Headers)
      → has_text skip k ≡ false
      → first k (entries (append_unless api skip es acc))
        ≡ or_else (first k (entries acc)) (first k es)
  unfolding append_unless first
  append_unless-first skip k [] acc e = sym (or_else-none (first k (entries acc)))
  append_unless-first skip k ((n, v) ∷ es) acc e = elim (Bool-cases (has_text skip n)) [
    | inl s ↦ rw (s, differs skip n k s e) (append_unless-first skip k es acc e)
    | inr s ↦ rw s (
        append_unless-first skip k es (api.append n v acc) e
        ∙ ap (λ a. or_else a (first k es)) (header_laws.first-append k n v acc)
        ∙ or_else-push (first k (entries acc)) (text_eq n k) v (first k es))
  ]

  -- A name on the list is not added.
  pub append_unless-lacks :
      (skip : List Text) (k : Text) (es : List (Text × HeaderValue)) (acc : Headers)
      → has_text skip k ≡ true
      → first k (entries acc) ≡ none
      → first k (entries (append_unless api skip es acc)) ≡ none
  unfolding append_unless
  append_unless-lacks skip k [] acc e p = p
  append_unless-lacks skip k ((n, v) ∷ es) acc e p = elim (Bool-cases (has_text skip n)) [
    | inl s ↦ rw s (append_unless-lacks skip k es acc e p)
    | inr s ↦
        let f : text_eq n k ≡ false = differs' skip n k s e in
        let p' : first k (entries (api.append n v acc)) ≡ none =
          header_laws.first-append k n v acc ∙ rw (p, f) refl in
        rw s (append_unless-lacks skip k es (api.append n v acc) e p')
  ]

  pub insert_all-first :
      (k : Text) (es : List (Text × HeaderValue)) (h : Headers)
      → first k es ≡ none
      → first k (entries (insert_all api es h)) ≡ first k (entries h)
  unfolding insert_all first
  insert_all-first k [] h e = refl
  insert_all-first k ((n, v) ∷ es) h e =
      let f : text_eq n k ≡ false = ground arith in
      let rest : first k es ≡ none = ground arith in
      insert_all-first k es (insert n v h) rest ∙ rw (header_laws.first-insert k n v h, f) refl

  pub with_extra-first :
      (k : Text) (extra : Option Headers) (h : Headers)
      → Lacks k extra
      → first k (entries (with_extra api extra h)) ≡ first k (entries h)
  unfolding with_extra
  with_extra-first k none h l = refl
  with_extra-first k (some x) h l = insert_all-first k (entries x) h l

  pub get-same :
      (k : Text) (h h' : Headers) → first k (entries h) ≡ first k (entries h') → get k h ≡ get k h'
  get-same k h h' e =
      header_laws.get-first k h
      ∙ ap (λ v. Option.bind v api.to_str) e
      ∙ sym (header_laws.get-first k h')
