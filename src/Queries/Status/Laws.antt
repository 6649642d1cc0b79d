-- ===== src/Queries/Status/Laws.antt =====
-- What the views of one message show of consistent tables, and the listing of the hashes.
use py_aleph.Prelude.{
  ℕ, ◌≡◌, refl, ◌∙◌, sym, ap, Bool, true, false, Option, none, some, Bool-cases, inl, inr,
}
use py_aleph.Prelude.Keys.{some_inj}
use py_aleph.Status.{MessageStatus}
use py_aleph.Node.{
  Content, aggregate_content, post_content, store_content, forget_content, vm_content, PostContent,
  Message, StatusRow, Forgotten, Tables,
}
use py_aleph.Node.Accessors.{
  is_rejected, is_processed, is_forgotten, get_message_by_item_hash, get_message_status,
  get_forgotten_message,
}
use py_aleph.Node.Consistent.{IsConsistent, Fits}
use py_aleph.Queries.Status.{
  Response, http_error, response, respond, or_not_found, request_hash, request_status,
  content_of_post, content_of_body, rejected_status, get_rejected_message, MessageWithStatus,
  StatusBody, processed_status, forgotten_status, status_of, body_of, get_message_with_status,
  view_message, view_message_content,
}

abbrev row_at : MessageStatus → ℕ → StatusRow
row_at status at = record { status = status; reception_time = at }

message_there :
    (h at : ℕ) (m : Option Message) (f : Option Forgotten) (o : Option StatusRow)
    → o ≡ some (row_at MessageStatus.processed at)
    → Fits h m f o
    → (a : Message) × (m ≡ some a)
message_there h at (some a) f o e c = (a, refl)
message_there h at none f none e c = absurd (cc)
message_there h at none none (some r) e c =
    absurd (cc (ap (λ x. is_processed x.status) (some_inj e), c.0))
message_there h at none (some g) (some r) e c =
    absurd (cc (ap (λ x. is_forgotten x.status) (some_inj e), c.1))

forgotten_there :
    (h at : ℕ) (m : Option Message) (f : Option Forgotten) (o : Option StatusRow)
    → o ≡ some (row_at MessageStatus.forgotten at)
    → Fits h m f o
    → (g : Forgotten) × (f ≡ some g)
forgotten_there h at m (some g) o e c = (g, refl)
forgotten_there h at none none none e c = absurd (cc)
forgotten_there h at (some a) none none e c = absurd (c)
forgotten_there h at (some a) none (some r) e c =
    absurd (cc (ap (λ x. is_forgotten x.status) (some_inj e), c.1))
forgotten_there h at none none (some r) e c =
    absurd (cc (ap (λ x. is_forgotten x.status) (some_inj e), c.1))

-- Of consistent tables, the rows that a status asks for are there, but for a rejected one.
body_there :
    (h : ℕ) (status : MessageStatus) (at : ℕ) (t : Tables)
    → t.statuses h ≡ some (row_at status at)
    → Fits h (t.messages h) (t.forgotten h) (t.statuses h)
    → is_rejected status ≡ false
    → (body : StatusBody) × (body_of h status t ≡ response body) × (status_of body ≡ status)
unfolding get_message_by_item_hash get_forgotten_message
body_there h MessageStatus.pending at t e c n = (_, refl, refl)
body_there h MessageStatus.rejected at t e c n = absurd (cc)
body_there h MessageStatus.processed at t e c n =
    let (m, found) = message_there h at (t.messages h) (t.forgotten h) (t.statuses h) e c in
    (processed_status m, rw found refl, refl)
body_there h MessageStatus.forgotten at t e c n =
    let (f, found) = forgotten_there h at (t.messages h) (t.forgotten h) (t.statuses h) e c in
    (forgotten_status f, rw found refl, refl)

pub respond-inv :
    {A B : Type 0} (m : Response A) (next : A → Response B) (b : B)
    → respond m next ≡ response b
    → (a : A) × (m ≡ response a) × (next a ≡ response b)
respond-inv (http_error e) next b h = absurd (cc)
respond-inv (response a) next b h = (a, refl, h)

pub response_inj : {A : Type 0} {a b : A} → response a ≡ response b → a ≡ b
response_inj e = cc (e)

pub found_inv :
    {A B : Type 0} (f : A → B) (o : Option A) (b : B)
    → or_not_found f o ≡ response b
    → (a : A) × (o ≡ some a) × (f a ≡ b)
found_inv f none b h = absurd (cc)
found_inv f (some a) b h = (a, refl, response_inj h)

content_of_post_inv :
    (is_item_hash : ℕ → Bool) (c : Content) (content : ℕ)
    → content_of_post is_item_hash c ≡ response content
    → (p : PostContent) × (c ≡ post_content p) × (p.body ≡ content)
content_of_post_inv is_item_hash (post_content p) content e = (p, refl, response_inj e)
content_of_post_inv is_item_hash (aggregate_content p) content e = absurd (cc)
content_of_post_inv is_item_hash (store_content p) content e = absurd (cc)
content_of_post_inv is_item_hash (forget_content p) content e = absurd (cc)
content_of_post_inv is_item_hash (vm_content p) content e = absurd (cc)

-- Only the body of a processed message has a content.
body_inv :
    (is_item_hash : ℕ → Bool) (h : ℕ) (status : MessageStatus) (t : Tables) (body : StatusBody)
    (content : ℕ)
    → body_of h status t ≡ response body
    → content_of_body is_item_hash body ≡ response content
    → (m : Message) × (c : PostContent) × (get_message_by_item_hash t h ≡ some m)
      × (m.content ≡ post_content c)
      × (c.body ≡ content)
      × (status ≡ MessageStatus.processed)
body_inv is_item_hash h MessageStatus.pending t body content e i =
    absurd (cc (ap (content_of_body is_item_hash) (response_inj e), i))
body_inv is_item_hash h MessageStatus.forgotten t body content e i =
    let (f, o, b) = found_inv forgotten_status (get_forgotten_message t h) body e in
    absurd (cc (ap (content_of_body is_item_hash) b, i))
body_inv is_item_hash h MessageStatus.rejected t body content e i =
    let (f, o, b) = found_inv rejected_status (get_rejected_message t h) body e in
    absurd (cc (ap (content_of_body is_item_hash) b, i))
body_inv is_item_hash h MessageStatus.processed t body content e i =
    let (m, o, b) = found_inv processed_status (get_message_by_item_hash t h) body e in
    let post : content_of_post is_item_hash m.content ≡ response content =
      ap (content_of_body is_item_hash) b ∙ i in
    let (c, ec, eb) = content_of_post_inv is_item_hash m.content content post in
    (m, c, o, ec, eb, refl)

module _ (is_item_hash : ℕ → Bool) where
  -- On consistent tables, the view of a message whose hash has a status other than REJECTED responds,
  -- with the hash, the time and the status of that row: the row that the status asks for is never
  -- missing.
  pub view_message-IsConsistent :
      (h : ℕ) (row : StatusRow) (t : Tables)
      → IsConsistent t
      → is_item_hash h ≡ true
      → get_message_status t h ≡ some row
      → is_rejected row.status ≡ false
      → (w : MessageWithStatus) × (view_message is_item_hash (some h) t ≡ response w)
        × (w.item_hash ≡ h)
        × (w.reception_time ≡ row.reception_time)
        × (status_of w.body ≡ row.status)
  unfolding get_message_status view_message get_message_with_status
  view_message-IsConsistent h row t c valid e n =
      let (body, there, status) = body_there h row.status row.reception_time t e (c.at h) n in
      (
        record { item_hash = h; reception_time = row.reception_time; body = body },
        rw valid (rw e (rw there refl)),
        refl,
        refl,
        status,
      )

  request_same : (h k : ℕ) → request_hash is_item_hash (some h) ≡ response k → k ≡ h
  request_same h k e = elim (Bool-cases (is_item_hash h)) [
    | inl y ↦ sym (response_inj (rw y at e))
    | inr n ↦ absurd (cc (rw n at e))
  ]

  -- The view of a content responds only with the content of a post that is stored, whose hash is
  -- PROCESSED.
  pub view_message_content_sound :
      (h : ℕ) (content : ℕ) (t : Tables)
      → view_message_content is_item_hash (some h) t ≡ response content
      → (m : Message) × (c : PostContent) × (row : StatusRow) × (get_message_by_item_hash t h
          ≡ some m)
        × (m.content ≡ post_content c)
        × (c.body ≡ content)
        × (get_message_status t h ≡ some row)
        × (row.status ≡ MessageStatus.processed)
  unfolding view_message_content view_message get_message_with_status
  view_message_content_sound h content t e =
      let (w, ew, ec) =
        respond-inv (view_message is_item_hash (some h) t)
          (λ w. content_of_body is_item_hash w.body) content e in
      let (found, ef, eg) =
        respond-inv (request_status is_item_hash (some h) t)
          (λ f. get_message_with_status f.0 f.1 t) w ew in
      let (k, ek, es) =
        respond-inv (request_hash is_item_hash (some h))
          (λ k. or_not_found (λ row. (k, row)) (get_message_status t k)) found ef in
      let (row, er, pair) = found_inv (λ row. (k, row)) (get_message_status t k) found es in
      let (body, eb, ev) =
        respond-inv (body_of found.0 found.1.status t)
          (λ b.
            response
              (record { item_hash = found.0; reception_time = found.1.reception_time; body = b }))
          w eg in
      let same : k ≡ h = request_same h k ek in
      let at : found.0 ≡ h = ap (λ x. x.0) (sym pair) ∙ same in
      let inner : content_of_body is_item_hash body ≡ response content =
        ap (λ x. content_of_body is_item_hash x.body) (response_inj ev) ∙ ec in
      let (m, c, o, post, b, processed_) =
        body_inv is_item_hash found.0 found.1.status t body content eb inner in
      (m, c, row, rw at at o, post, b, rw same at er, ap (λ x. x.1.status) pair ∙ processed_)
