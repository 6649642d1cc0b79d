-- ===== src/Queries/Socket.antt =====
-- `message_matches_filters` of src/aleph/web/controllers/messages.py, which filters the messages that a
-- websocket sends on as they are processed.
use py_aleph.Prelude.{
  ℕ, ◌≡◌, refl, Bool, true, false, ◌&&◌, Option, none, some, List, [], ◌∷◌, arith, if◌then◌else◌,
  any, ◌⊎◌, inl, inr, Bool-cases,
}
use py_aleph.Status.{Error}
use py_aleph.Result.{Result, ok, raise}
use py_aleph.Node.{MessageType, Message}
use py_aleph.Permissions.{is_empty}
use py_aleph.Chains.{ChainTx}
use py_aleph.Queries.{is_in, in_filter, in_filter?, coerce_to_datetime}
use py_aleph.Queries.Messages.{JsonColumns, MessageFilters, type_filter, matches}

-- What `getattr` gives of the content of a message. The attribute `content` has no default: where it
-- is missing, the access raises.
pub record Attributes : Type 0 where
  pub ref : Message → Option ℕ
  pub type : Message → Option ℕ
  pub item_hash : Message → Option ℕ
  pub content : Message → Option ℕ
  pub is_empty : ℕ → Bool

-- `getattr(nested_content, "tags", [])`: the nested content is a value of JSON, for posts and aggregates
-- a dict, which may have a key `tags` and has no such attribute, so that this is the default.
abbrev pub nested_tags_of : ℕ → List ℕ
nested_tags_of content = []

module _ (attributes : Attributes) where
  -- `filters_by_message_field`.
  abbrev pub fields_match : MessageFilters → Message → Bool
  fields_match f m =
      in_filter f.addresses m.sender
      && (type_filter f.message_type m.type
          && (in_filter f.hashes m.item_hash
              && (in_filter f.chains m.chain && in_filter? f.channels m.channel)))

  abbrev pub content_matches : MessageFilters → Message → Bool
  content_matches f m =
      in_filter? f.refs (attributes.ref m)
      && (in_filter? f.content_types (attributes.type m)
          && in_filter? f.content_hashes (attributes.item_hash m))

  abbrev pub nested_tags : List ℕ → Option ℕ → Result Bool
  nested_tags tags none = raise Error.other
  nested_tags tags (some content) =
      if attributes.is_empty content
      then ok false
      else ok (any (λ tag. is_in tag tags) (nested_tags_of content))

  abbrev pub tags_match : List ℕ → Message → Result Bool
  tags_match [] m = ok true
  tags_match (v ∷ tags) m = nested_tags (v ∷ tags) (attributes.content m)

  unfoldable pub message_matches_filters : MessageFilters → Message → Result Bool
  message_matches_filters f m =
      if type_filter f.message_type m.type && (fields_match f m && content_matches f m)
      then tags_match f.tags m
      else ok false

-- The tests in either order.
reorder :
    (ty ad ha ch cn re ct hs tg : Bool)
    → (if ty && ((ad && (ty && (ha && (ch && cn)))) && (re && (ct && hs))) then ok tg else ok false)
      ≡ ok (ha && (ad && (ch && (ty && (re && (hs && (ct && (tg && cn))))))))
reorder false ad ha ch cn re ct hs tg = ground arith
reorder true false ha ch cn re ct hs tg = ground arith
reorder true true ha false cn re ct hs tg = ground arith
reorder true true false true cn re ct hs tg = refl
reorder true true true true false re ct hs tg = ground arith
reorder true true true true true false ct hs tg = refl
reorder true true true true true true false hs tg = ground arith
reorder true true true true true true true false tg = refl
reorder true true true true true true true true false = refl
reorder true true true true true true true true true = refl

-- The attributes of a message are its JSON columns, and its content has the attribute `content`, as
-- those of posts and aggregates do.
pub record Agrees (attributes : Attributes) (json : JsonColumns) (m : Message) : Type 0 where
  pub ref : attributes.ref m ≡ json.ref m
  pub type : attributes.type m ≡ json.type m
  pub item_hash : attributes.item_hash m ≡ json.item_hash m
  pub nested : ℕ
  pub content : attributes.content m ≡ some nested

List-cases : (xs : List ℕ) → (xs ≡ []) ⊎ ((y : ℕ) × (ys : List ℕ) × (xs ≡ y ∷ ys))
List-cases [] = inl refl
List-cases (y ∷ ys) = inr (y, ys, refl)

-- The filters of a websocket: it has no dates and no blocks.
abbrev pub IsSocket : MessageFilters → Type 0
IsSocket f = (f.start_date ≡ 0) × (f.end_date ≡ 0)

module _ {J : Type 0} (attributes : Attributes) (json : JsonColumns) (confirmed : ℕ → ℕ → Bool)
    (txs : List (ChainTx J)) where
  no_tags_match :
      (v : ℕ) (tags : List ℕ) (m : Message)
      → Agrees attributes json m
      → tags_match attributes (v ∷ tags) m ≡ ok false
  no_tags_match v tags m a = elim (Bool-cases (attributes.is_empty a.nested)) [
    | inl y ↦ rw a.content (rw y refl)
    | inr n ↦ rw a.content (rw n refl)
  ]

  either_false :
      (b : Bool) (r : Result Bool) → r ≡ ok false → (if b then r else ok false) ≡ ok false
  either_false true r e = e
  either_false false r e = refl

  -- Of a message whose content has a nested content, and whose attributes are its columns: where
  -- neither message types nor tags are given, the filter of the websocket lets it pass if and only
  -- if the query of the listing does; where tags are given, it never passes.
  pub message_matches_filters-matches :
      (f : MessageFilters) (m : Message)
      → Agrees attributes json m
      → IsSocket f
      → f.message_types ≡ []
      → message_matches_filters attributes f m
        ≡ ok (is_empty f.tags && matches json confirmed txs f m)
  unfolding message_matches_filters matches coerce_to_datetime
  message_matches_filters-matches f m a (s, e) n = elim (List-cases f.tags) [
    | inl none_given ↦ rw none_given (
        rw (a.ref, a.type, a.item_hash)
          (rw (s, e, n)
            (reorder (type_filter f.message_type m.type) (in_filter f.addresses m.sender)
              (in_filter f.hashes m.item_hash) (in_filter f.chains m.chain)
              (in_filter? f.channels m.channel) (in_filter? f.refs (json.ref m))
              (in_filter? f.content_types (json.type m))
              (in_filter? f.content_hashes (json.item_hash m)) true)))
    | inr (v, tags, given) ↦ rw given (either_false _ _ (no_tags_match v tags m a))
  ]

  -- The list of message types is not read: whatever it is, the same messages pass.
  pub message_matches_filters-message_types :
      (f : MessageFilters) (types : List MessageType) (m : Message)
      → message_matches_filters attributes (record f { message_types = types }) m
        ≡ message_matches_filters attributes f m
  unfolding message_matches_filters
  message_matches_filters-message_types f types m = refl
