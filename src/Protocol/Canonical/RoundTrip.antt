-- ===== src/Protocol/Canonical/RoundTrip.antt =====
-- What the canonical writer wrote is read back, so that a canonical text determines the content of
-- the document.
use mathlib.Core.List.{append-nil}
use retentionops_connector.Prelude.{
  ◌≡◌, refl, ap, subst, ℕ, suc, String, Bool, true, false, List, [], ◌∷◌, ◌++◌, length, arith,
  Bool-cases, inl, inr,
}
use retentionops_connector.Prelude.Text.{codes}
use retentionops_connector.Prelude.Result.{Result, ok, >>=-eq-ok}
use retentionops_connector.Protocol.Json.{Json, Items, Members}
use retentionops_connector.Protocol.Error.{ProtocolError}
use retentionops_connector.Protocol.Canonical.{
  less_utf16, insert_entry, sort_entries, join_members, write_canonical, write_items, write_members,
  write_string, separator,
}
use retentionops_connector.Protocol.Canonical.Reader.{
  Content, null, flag, text, list, record_of, nil, cons, end, field, to_fields, content, contents,
  member_contents, span_digits, read, finish,
}
use retentionops_connector.Protocol.Canonical.Tokens.{
  ReadsAs, number-ReadsAs, null-ReadsAs, true-ReadsAs, false-ReadsAs, string-ReadsAs,
}
use retentionops_connector.Protocol.Canonical.Containers.{
  ReadsItems, ReadsFields, list-ReadsAs, record-ReadsAs, nil-ReadsItems, cons-ReadsItems, Closed,
  cons-ReadsFields, nil-ReadsFields,
}

abbrev Written : Type 0
Written = List (String × Result ProtocolError (List ℕ))

abbrev Meant : Type 0
Meant = List (String × Content)

-- What is written for the members, beside their contents, in one order.
data Paired : Written → Meant → Type 0 where
  no_pair : Paired [] []
  pair :
      {key : String} {r : Result ProtocolError (List ℕ)} {v : Content} {es : Written} {vs : Meant}
      → ((t : List ℕ) → r ≡ ok t → ReadsAs t v)
      → Paired es vs
      → Paired ((key, r) ∷ es) ((key, v) ∷ vs)

insert-Paired :
    (key : String) (r : Result ProtocolError (List ℕ)) (v : Content) {es : Written} {vs : Meant}
    → ((t : List ℕ) → r ≡ ok t → ReadsAs t v)
    → Paired es vs
    → Paired (insert_entry (key, r) es) (insert_entry (key, v) vs)
unfolding insert_entry
insert-Paired key r v h no_pair = pair h no_pair
insert-Paired key r v h (pair {key = other} h' p) = elim (Bool-cases (less_utf16 key other)) [
  | inl before ↦ rw before (pair h (pair h' p))
  | inr behind ↦ rw behind (pair h' (insert-Paired key r v h p))
]

sort-Paired :
    {es : Written} {vs : Meant} → Paired es vs → Paired (sort_entries es) (sort_entries vs)
unfolding sort_entries
sort-Paired no_pair = no_pair
sort-Paired (pair {key} {r} {v} h p) = insert-Paired key r v h (sort-Paired p)

-- What is behind a member, or an item, is not empty and starts with no digit.
join-Closed : (es : Written) (t : List ℕ) → join_members false es ≡ ok t → Closed t
unfolding join_members span_digits
join-Closed [] t h =
    let done : ◌≡◌ {A = List ℕ} (b'}' ∷ []) t = cc in subst Closed done (omega arith, λ rest. refl)
join-Closed ((key, r) ∷ es) t h =
    let (written, _, next) = >>=-eq-ok r _ h in
    let (more, _, done) = >>=-eq-ok (join_members false es) _ next in
    let whole : (b',' ∷ (write_string key ++ (b':' ∷ (written ++ more)))) ≡ t = cc in
    subst Closed whole (omega arith, λ rest. refl)

write_items-Closed : (xs : Items) (t : List ℕ) → write_items false xs ≡ ok t → Closed t
unfolding write_canonical span_digits
write_items-Closed Items.nil t h =
    let done : ◌≡◌ {A = List ℕ} (b']' ∷ []) t = cc in subst Closed done (omega arith, λ rest. refl)
write_items-Closed (Items.cons v xs) t h =
    let (written, _, next) = >>=-eq-ok (write_canonical v) _ h in
    let (more, _, done) = >>=-eq-ok (write_items false xs) _ next in
    let whole : (b',' ∷ (written ++ more)) ≡ t = cc in
    subst Closed whole (omega arith, λ rest. refl)

join-ReadsFields :
    (first : Bool) {es : Written} {vs : Meant} (t : List ℕ)
    → Paired es vs
    → join_members first es ≡ ok t
    → ReadsFields first t (to_fields vs)
unfolding join_members
join-ReadsFields first t no_pair h =
    let done : ◌≡◌ {A = List ℕ} (b'}' ∷ []) t = cc in
    subst (λ u. ReadsFields first u end) done (nil-ReadsFields first)
join-ReadsFields first t (pair {key} {r} {v} {es} {vs} one others) h =
    let (written, wrote, next) = >>=-eq-ok r _ h in
    let (more, joined, done) = >>=-eq-ok (join_members false es) _ next in
    let whole : (separator first ++ (write_string key ++ (b':' ∷ (written ++ more)))) ≡ t = cc in
    subst (λ u. ReadsFields first u (field (codes key) v (to_fields vs))) whole
      (cons-ReadsFields first key written more v (to_fields vs) (one written wrote)
        (join-Closed es more joined) (join-ReadsFields false more others joined))

mutual
  unfolding write_canonical content

  write-ReadsAs : (v : Json) (t : List ℕ) → write_canonical v ≡ ok t → ReadsAs t (content v)
  write-ReadsAs Json.null t h = subst (λ u. ReadsAs u null) (cc h) null-ReadsAs
  write-ReadsAs (Json.bool true) t h = subst (λ u. ReadsAs u (flag true)) (cc h) true-ReadsAs
  write-ReadsAs (Json.bool false) t h = subst (λ u. ReadsAs u (flag false)) (cc h) false-ReadsAs
  write-ReadsAs (Json.string s) t h =
      subst (λ u. ReadsAs u (text (codes s))) (cc h) (string-ReadsAs s)
  write-ReadsAs (Json.number literal) t h = number-ReadsAs literal t h
  write-ReadsAs (Json.array xs) t h =
      let (inside, wrote, done) = >>=-eq-ok (write_items true xs) _ h in
      subst (λ u. ReadsAs u (list (contents xs))) (cc done)
        (list-ReadsAs inside (contents xs) (write-ReadsItems true xs inside wrote))
  write-ReadsAs (Json.object ms) t h =
      let (inside, wrote, done) =
        >>=-eq-ok (join_members true (sort_entries (write_members ms))) _ h in
      let fields = to_fields (sort_entries (member_contents ms)) in
      subst (λ u. ReadsAs u (record_of fields)) (cc done)
        (record-ReadsAs inside fields
          (join-ReadsFields true inside (sort-Paired (write-Paired ms)) wrote))

  write-ReadsItems :
      (first : Bool) (xs : Items) (t : List ℕ)
      → write_items first xs ≡ ok t
      → ReadsItems first t (contents xs)
  write-ReadsItems first Items.nil t h =
      subst (λ u. ReadsItems first u nil) {x = b']' ∷ []} (cc h) (nil-ReadsItems first)
  write-ReadsItems first (Items.cons v xs) t h =
      let (written, wrote, next) = >>=-eq-ok (write_canonical v) _ h in
      let (more, joined, done) = >>=-eq-ok (write_items false xs) _ next in
      subst (λ u. ReadsItems first u (cons (content v) (contents xs)))
        {x = separator first ++ (written ++ more)} (cc done)
        (cons-ReadsItems first written more (content v) (contents xs)
          (write-ReadsAs v written wrote) (write_items-Closed xs more joined)
          (write-ReadsItems false xs more joined))

  write-Paired : (ms : Members) → Paired (write_members ms) (member_contents ms)
  write-Paired Members.end = no_pair
  write-Paired (Members.member key v ms) = pair (λ t h. write-ReadsAs v t h) (write-Paired ms)

-- A document that is written is read back: a reader of JSON takes the whole canonical text, and finds
-- the strings and truth values of the document, its integers by value, its items in their order and
-- its members in the order of their keys.
pub read-write_canonical :
    (v : Json) (t : List ℕ) → write_canonical v ≡ ok t → read t ≡ ok (content v)
unfolding read
read-write_canonical v t h =
    let whole =
      (write-ReadsAs v t h).reads [] (suc (length t)) (unfold span_digits in refl) (omega arith) in
    ap finish (rw append-nil at whole)

-- Two documents with one canonical text have the same content: a signature over the text is over
-- one content only.
pub write_canonical-content :
    (v w : Json) (t : List ℕ)
    → write_canonical v ≡ ok t
    → write_canonical w ≡ ok t
    → content v ≡ content w
write_canonical-content v w t hv hw = cc (read-write_canonical v t hv, read-write_canonical w t hw)
