-- ===== src/Client/Verified.antt =====
-- A round that reports success has checked every product.
use emvp_thesis.Base.{
  ℕ, suc, ◌+◌, ◌≡◌, refl, sym, ap, ◌∙◌, Option, none, some, List, [], ◌∷◌, true, ◌==◌, length, take,
  get_elem?, sum_by, arith,
}
use emvp_thesis.Base.Action.{
  Result, ok, err, ensure, ok_or, bind_inverse, ensure_inverse, ok_or_inverse,
}
use emvp_thesis.Base.Vector.{Allocator}
use emvp_thesis.Client.{
  Stop, panicked, Instance, Buffers, on_protocol, on_params, plaintext_product_into, same_elements,
  reserve_buffers, overwrite, verify_answer, verify_keys, verify_entry, verify_entries,
  verify_products,
}
use emvp_thesis.Emvp.Params.{EmvpParams, ParamsError, blocks}
use emvp_thesis.Emvp.Protocol.{Checked, DecodingKey, decode_into}
use emvp_thesis.Emvp.View.{AnswerRef}
use emvp_thesis.Field.{FieldElement}
use emvp_thesis.Wire.Frame.{protocol_modulus}
use emvp_thesis.Wire.Products.Workspace.{
  ProductsWorkspace, ProductEntryView, product_entries, answer_view,
}

-- The answer was paired with its key, and decodes to the plaintext product.
pub record IsVerified (inst : Instance) (key : DecodingKey) (query : List FieldElement)
    (answer : AnswerRef) : Type 0 where
  pub paired : answer.query_id ≡ key.query_id
  pub buffer : List FieldElement
  pub values : List FieldElement
  pub decodes : decode_into protocol_modulus answer key buffer ≡ some (ok values)
  pub product : plaintext_product_into inst.plaintext query 0 inst.rows ≡ some values

-- From an index on, each decoding key has its answer and its plaintext query.
abbrev pub AreVerified : Instance → ProductEntryView → ℕ → List DecodingKey → Type 0
AreVerified inst entry index [] = Unit
AreVerified inst entry index (key ∷ keys) =
    ((answer : AnswerRef) × (query : List FieldElement) × (answer_view entry index ≡ some answer)
      × (get_elem? inst.plaintext_queries index ≡ some query)
      × IsVerified inst key query answer)
    × AreVerified inst entry (index + 1) keys

pub record IsAnswered (block_count : ℕ) (inst : Instance) (id : ℕ) (entry : ProductEntryView)
    : Type 0 where
  pub matrix : entry.meta.matrix_id ≡ id
  pub instance_id : entry.meta.instance_id ≡ inst.encrypted.instance_id
  pub rows : entry.meta.rows ≡ inst.rows
  pub blocks : entry.meta.blocks ≡ block_count
  pub answers : entry.meta.answer_count ≡ length inst.decoding_keys
  pub products : AreVerified inst entry 0 inst.decoding_keys

abbrev pub AreAnswered : ℕ → List Instance → List ℕ → List ProductEntryView → Type 0
AreAnswered block_count [] ids entries = Unit
AreAnswered block_count (inst ∷ instances) ids entries =
    (id : ℕ) × (ids' : List ℕ) × (entry : ProductEntryView) × (entries' : List ProductEntryView)
    × (ids ≡ id ∷ ids')
    × (entries ≡ entry ∷ entries')
    × IsAnswered block_count inst id entry
    × AreAnswered block_count instances ids' entries'

abbrev pub key_count : Instance → ℕ
key_count inst = length inst.decoding_keys

on_protocol_inverse :
    {S A : Type 0} (x : Option (Checked A)) (s : S) {a : A} {u : S}
    → on_protocol x s ≡ (ok a, u)
    → (x ≡ some (ok a)) × (s ≡ u)
on_protocol_inverse none s h = cc h
on_protocol_inverse (some (ok a)) s h = (cc h, cc h)
on_protocol_inverse (some (err e)) s h = cc h

on_params_inverse :
    {S A : Type 0} (x : Result ParamsError A) (s : S) {a : A} {u : S}
    → on_params x s ≡ (ok a, u)
    → (x ≡ ok a) × (s ≡ u)
on_params_inverse (ok a) s h = (cc h, cc h)
on_params_inverse (err e) s h = cc h

same_elements_lem : (xs ys : List FieldElement) → same_elements xs ys ≡ true → xs ≡ ys
same_elements_lem [] [] h = refl
same_elements_lem [] (y ∷ ys) h = cc h
same_elements_lem (x ∷ xs) [] h = cc h
same_elements_lem (x ∷ xs) (y ∷ ys) h =
    let first : x.montgomery ≡ y.montgomery = ground arith in
    let rest = same_elements_lem xs ys (ground arith) in cc (first, rest)

equal_of :
    (e : Stop) (a b : ℕ) (s : Buffers) {u : Buffers} → ensure (a == b) e s ≡ (ok tt, u) → a ≡ b
equal_of e a b s h = let test = (ensure_inverse (a == b) e s h).0 in ground arith

pure_value :
    (a b : ℕ) (s : Buffers) {u : Buffers}
    → ◌≡◌ {A = Result Stop ℕ × Buffers} (ok a, s) (ok b, u)
    → a ≡ b
pure_value a b s h = cc h

module _ (allocator : Allocator) where
  verify_answer-IsVerified :
      (answer : AnswerRef) (key : DecodingKey) (query : List FieldElement) (inst : Instance)
      (id : ℕ) (s t : Buffers)
      → verify_answer allocator answer key query inst id s ≡ (ok tt, t)
      → IsVerified inst key query answer
  unfolding verify_answer
  verify_answer-IsVerified answer key query inst id s t h =
      let (_, s1, paired, h1) = bind_inverse (ensure (answer.query_id == key.query_id) _) _ s h in
      let (_, s2, grown, h2) = bind_inverse (reserve_buffers allocator inst.rows) _ s1 h1 in
      let (values, s3, ran, h3) =
        bind_inverse
          (on_protocol (decode_into protocol_modulus answer key (take inst.rows s2.decoded.items)))
          _ s2 h2 in
      let s3' : Buffers = record s3 { decoded = overwrite s3.decoded values } in
      let (products, s4, computed, h4) =
        bind_inverse (ok_or panicked (plaintext_product_into inst.plaintext query 0 inst.rows)) _
          s3' h3 in
      let equal =
        same_elements_lem values products
          (ensure_inverse (same_elements values products) _ _ h4).0 in
      record {
        paired = equal_of _ answer.query_id key.query_id s paired;
        buffer = take inst.rows s2.decoded.items;
        values = values;
        decodes =
            (on_protocol_inverse
              (decode_into protocol_modulus answer key (take inst.rows s2.decoded.items)) s2 ran).0;
        product =
            (ok_or_inverse panicked (plaintext_product_into inst.plaintext query 0 inst.rows) s3'
              computed).0
            ∙ ap some (sym equal);
      }

  verify_keys-AreVerified :
      (entry : ProductEntryView) (inst : Instance) (id index : ℕ) (keys : List DecodingKey)
      (s t : Buffers) (n : ℕ)
      → verify_keys allocator entry inst id index keys s ≡ (ok n, t)
      → AreVerified inst entry index keys × (n ≡ length keys)
  unfolding verify_keys
  verify_keys-AreVerified entry inst id index [] s t n h = (tt, cc h)
  verify_keys-AreVerified entry inst id index (key ∷ keys) s t n h =
      let (answer, s1, found, h1) = bind_inverse (ok_or _ (answer_view entry index)) _ s h in
      let (query, s2, known, h2) =
        bind_inverse (ok_or panicked (get_elem? inst.plaintext_queries index)) _ s1 h1 in
      let (_, s3, checked, h3) =
        bind_inverse (verify_answer allocator answer key query inst id) _ s2 h2 in
      let (verified, s4, later, made) =
        bind_inverse (verify_keys allocator entry inst id (index + 1) keys) _ s3 h3 in
      let r = verify_keys-AreVerified entry inst id (index + 1) keys s3 s4 verified later in
      (
        (
          (
            answer,
            query,
            (ok_or_inverse _ (answer_view entry index) s found).0,
            (ok_or_inverse panicked (get_elem? inst.plaintext_queries index) s1 known).0,
            verify_answer-IsVerified answer key query inst id s2 s3 checked,
          ),
          r.0,
        ),
        (let e = pure_value (suc verified) n s4 made in omega (arith, r.1)),
      )

  verify_entry-IsAnswered :
      (block_count : ℕ) (inst : Instance) (id : ℕ) (entry : ProductEntryView) (s t : Buffers)
      (n : ℕ)
      → verify_entry allocator block_count inst id entry s ≡ (ok n, t)
      → IsAnswered block_count inst id entry × (n ≡ key_count inst)
  unfolding verify_entry
  verify_entry-IsAnswered block_count inst id entry s t n h =
      let (_, s1, matrix, h1) = bind_inverse (ensure (entry.meta.matrix_id == id) _) _ s h in
      let (_, s2, instance_id, h2) =
        bind_inverse (ensure (entry.meta.instance_id == inst.encrypted.instance_id) _) _ s1 h1 in
      let (_, s3, rows, h3) = bind_inverse (ensure (entry.meta.rows == inst.rows) _) _ s2 h2 in
      let (_, s4, blocks, h4) =
        bind_inverse (ensure (entry.meta.blocks == block_count) _) _ s3 h3 in
      let (_, s5, answers, h5) =
        bind_inverse (ensure (entry.meta.answer_count == length inst.decoding_keys) _) _ s4 h4 in
      let r = verify_keys-AreVerified entry inst id 0 inst.decoding_keys s5 t n h5 in
      (
        record {
          matrix = equal_of _ entry.meta.matrix_id id s matrix;
          instance_id = equal_of _ entry.meta.instance_id inst.encrypted.instance_id s1 instance_id;
          rows = equal_of _ entry.meta.rows inst.rows s2 rows;
          blocks = equal_of _ entry.meta.blocks block_count s3 blocks;
          answers = equal_of _ entry.meta.answer_count (length inst.decoding_keys) s4 answers;
          products = r.0;
        },
        r.1,
      )

  verify_entries-AreAnswered :
      (block_count : ℕ) (instances : List Instance) (ids : List ℕ) (entries : List ProductEntryView)
      (s t : Buffers) (n : ℕ)
      → length ids ≡ length instances
      → length entries ≡ length instances
      → verify_entries allocator block_count instances ids entries s ≡ (ok n, t)
      → AreAnswered block_count instances ids entries × (n ≡ sum_by key_count instances)
  unfolding verify_entries
  verify_entries-AreAnswered block_count [] ids entries s t n a b h = (tt, cc h)
  verify_entries-AreAnswered block_count (inst ∷ instances) [] entries s t n a b h =
      absurd (omega arith)
  verify_entries-AreAnswered block_count (inst ∷ instances) (id ∷ ids) [] s t n a b h =
      absurd (omega arith)
  verify_entries-AreAnswered block_count (inst ∷ instances) (id ∷ ids) (entry ∷ entries) s t n a b
        h =
      let (verified, s1, first, h1) =
        bind_inverse (verify_entry allocator block_count inst id entry) _ s h in
      let (rest, s2, later, made) =
        bind_inverse (verify_entries allocator block_count instances ids entries) _ s1 h1 in
      let one = verify_entry-IsAnswered block_count inst id entry s s1 verified first in
      let r =
        verify_entries-AreAnswered block_count instances ids entries s1 s2 rest (omega arith)
          (omega arith) later in
      (
        (id, ids, entry, entries, refl, refl, one.0, r.0),
        (let e = pure_value (verified + rest) n s2 made in omega (arith, one.1, r.1)),
      )

  -- For matrix identifiers and views of a products frame as many as the instances, and any verification
  -- buffers: if `verify_products` returns a count, then each view names its matrix and instance, has the
  -- rows, the blocks and the number of answers that were asked for, each of its answers decodes with its
  -- key to the plaintext product of its query, and the count is the number of all queries.
  pub verify_products_sound :
      (products : ProductsWorkspace) (instances : List Instance) (ids : List ℕ) (ps : EmvpParams)
      (s t : Buffers) (n : ℕ)
      → length ids ≡ length instances
      → length (product_entries products) ≡ length instances
      → verify_products allocator products instances ids ps s ≡ (ok n, t)
      → (block_count : ℕ) × (blocks ps ≡ ok block_count)
        × AreAnswered block_count instances ids (product_entries products)
        × (n ≡ sum_by key_count instances)
  unfolding verify_products
  verify_products_sound products instances ids ps s t n a b h =
      let (_, s1, counted, h1) =
        bind_inverse (ensure (length products.entries.items == length instances) _) _ s h in
      let (block_count, s2, found, h2) = bind_inverse (on_params (blocks ps)) _ s1 h1 in
      let r =
        verify_entries-AreAnswered block_count instances ids (product_entries products) s2 t n a b
          h2 in
      (block_count, (on_params_inverse (blocks ps) s1 found).0, r.0, r.1)
