-- ===== src/Tlog/Operator/Log.antt =====
-- Over any calls, the operator's source reads the log that was appended.
use go_iroh_experiments.Base.{
  ℕ, zero, suc, ◌+◌, ◌^◌, ◌≤◌, ◌<◌, ◌≡◌, refl, sym, ap, ◌∙◌, subst, List, [], ◌∷◌, ◌++◌, none, some,
  inl, inr, ◌⊎◌, arith, length, length-append, get_elem?, Bytes, Option-cases,
}
use go_iroh_experiments.Tlog.Api.{Api}
use go_iroh_experiments.Tlog.Source.{entry_key, blob, find_entry}
use go_iroh_experiments.Tlog.Operator.{
  Stores, Operator, hash_reader, source, store, append, publish, new_operator,
}
use go_iroh_experiments.Tlog.Operator.Stored.{
  KeepsBlobs, unless_empty, Stored, IsFree, Stored-blob, IsFree-blob, store-Stored, store-IsFree,
  store-entry, entry_keys_apart,
}
use go_iroh_experiments.Tlog.Operator.Extends.{
  Extends, with_rest, rest-Stored, rest-IsFree, publish-Extends,
}

pub data Call : Type 0 where
  appends : Bytes → Call
  publishes : Call

-- The operator after the calls, and the entries whose Append succeeded.
module _ {Blobs : Type 0} (stores : Stores Blobs) (api : Api) where
  unfoldable pub call : Operator Blobs × List Bytes → Call → Operator Blobs × List Bytes
  call (o, es) (appends e) =
      let (p, index) = append stores o e in (p, elim index [ none ↦ es | some i ↦ es ++ (e ∷ []) ])
  call (o, es) publishes = ((publish stores api o).0, es)

  unfoldable pub calls : Operator Blobs × List Bytes → List Call → Operator Blobs × List Bytes
  calls s [] = s
  calls s (c ∷ cs) = calls (call s c) cs

module _ {Blobs : Type 0} (stores : Stores Blobs) where
  record IsLog (o : Operator Blobs) (es : List Bytes) : Type 0 where
    size_is : o.size ≡ length es
    stored : (i : ℕ) (e : Bytes) → get_elem? es i ≡ some e → Stored stores o i e
    free : (i : ℕ) → length es ≤ i → i < 10 ^ 20 → IsFree stores o i

  get_elem?-snoc :
      (es : List Bytes) (e : Bytes) (i : ℕ) (x : Bytes)
      → get_elem? (es ++ (e ∷ [])) i ≡ some x
      → ((i < length es) × (get_elem? es i ≡ some x)) ⊎ ((i ≡ length es) × (x ≡ e))
  get_elem?-snoc [] e zero x h = inr (refl, ground arith)
  get_elem?-snoc [] e (suc i) x h = absurd (ground arith)
  get_elem?-snoc (y ∷ es) e zero x h = inl (omega arith, h)
  get_elem?-snoc (y ∷ es) e (suc i) x h = elim (get_elem?-snoc es e i x h) [
    | inl (before, old) ↦ inl (omega arith, old)
    | inr (last, same) ↦ inr (omega arith, same)
  ]

  get_elem?-none : (es : List Bytes) (i : ℕ) → get_elem? es i ≡ none → length es ≤ i
  get_elem?-none [] i h = omega arith
  get_elem?-none (x ∷ es) zero h = absurd (ground arith)
  get_elem?-none (x ∷ es) (suc i) h = omega (arith, get_elem?-none es i h)

  abbrev IsLogged : Operator Blobs × List Bytes → Type 0
  IsLogged (o, es) = IsLog o es

  to-IsLogged : (s t : Operator Blobs × List Bytes) → t ≡ s → IsLogged s → IsLogged t
  to-IsLogged s t e log = subst IsLogged (sym e) log

  Extends-IsLog :
      (o p : Operator Blobs) (es : List Bytes) → Extends stores o p → IsLog o es → IsLog p es
  Extends-IsLog o p es x l = record {
    size_is = x.same_size ∙ l.size_is;
    stored = λ i e h. x.keeps i e (l.stored i e h);
    free = λ i a b. x.keeps_free i (l.free i a b);
  }

  module _ (kept : KeepsBlobs stores) where
    append-index :
        (o : Operator Blobs) (e : Bytes) (i : ℕ) → (append stores o e).1 ≡ some i → i ≡ o.size
    unfolding append
    append-index o e i h =
        elim (Option-cases (stores.stored_hashes o.size e (hash_reader o.hashes))) [
          | inl failed ↦ absurd (ground arith)
          | inr (hs, hashed) ↦ elim (Option-cases (store stores o (entry_key o.size) e)) [
            | inl failed ↦ absurd (ground arith)
            | inr (p, put) ↦ ground arith
          ]
        ]

    reads :
        (o : Operator Blobs) (es : List Bytes)
        → IsLog o es
        → (i : ℕ) → i < 10 ^ 20
        → blob (source stores o) (entry_key i) ≡ unless_empty (get_elem? es i)
    reads o es log i below = elim (Option-cases (get_elem? es i)) [
      | inr (e, there) ↦
          Stored-blob stores o i e (log.stored i e there) ∙ ap unless_empty (sym there)
      | inl past ↦
          IsFree-blob stores o i (log.free i (get_elem?-none es i past) below)
          ∙ ap unless_empty (sym past)
    ]

    -- The entry that is appended, after those that were there.
    appended-Stored :
        (o p : Operator Blobs) (es : List Bytes) (e : Bytes)
        → IsLog o es
        → length es < 10 ^ 20
        → store stores o (entry_key o.size) e ≡ some p
        → (i : ℕ) (x : Bytes) → get_elem? (es ++ (e ∷ [])) i ≡ some x
        → Stored stores p i x
    appended-Stored o p es e log small put i x h = elim (get_elem?-snoc es e i x h) [
      | inl (before, old) ↦
          store-Stored stores kept o (entry_key o.size) e p i x put
            (entry_keys_apart i o.size (omega arith) (omega (arith, log.size_is))
              (ground (arith, log.size_is)))
            (log.stored i x old)
      | inr (last, same) ↦
          let key : store stores o (entry_key i) e ≡ some p =
            ap (λ (n : ℕ). store stores o (entry_key n) e) (last ∙ sym log.size_is) ∙ put in
          subst (Stored stores p i) (sym same)
            (store-entry stores kept o e p i key (log.free i (omega arith) (omega arith)))
    ]

    append-IsLog :
        (api : Api) (o : Operator Blobs) (es : List Bytes) (e : Bytes)
        → IsLog o es
        → length es < 10 ^ 20
        → IsLogged (call stores api (o, es) (appends e))
    unfolding call append
    append-IsLog api o es e log small =
        elim (Option-cases (stores.stored_hashes o.size e (hash_reader o.hashes))) [
          | inl failed ↦ to-IsLogged (o, es) _ (ground arith) log
          | inr (hs, hashed) ↦ elim (Option-cases (store stores o (entry_key o.size) e)) [
            | inl failed ↦ to-IsLogged (o, es) _ (ground arith) log
            | inr (p, put) ↦
                to-IsLogged
                  (
                    with_rest stores p (o.hashes ++ hs) (o.size + 1) p.published p.checkpoint,
                    es ++ (e ∷ []),
                  )
                  _ (ground arith)
                  (record {
                    size_is = omega (arith, log.size_is, length-append es (e ∷ []));
                    stored = λ i x h.
                        rest-Stored stores p _ _ _ _ i x
                          (appended-Stored o p es e log small put i x h);
                    free = λ i past below.
                        let len = length-append es (e ∷ []) in
                        rest-IsFree stores p _ _ _ _ i (
                          store-IsFree stores kept o (entry_key o.size) e p i put
                            (entry_keys_apart i o.size below (omega (arith, log.size_is))
                              (ground (arith, log.size_is)))
                            (log.free i (omega arith) below));
                  })
          ]
        ]

    length-call :
        (api : Api) (s : Operator Blobs × List Bytes) (c : Call)
        → length (call stores api s c).1 ≤ length s.1 + 1
    unfolding call
    length-call api (o, es) (appends e) = elim (Option-cases (append stores o e).1) [
      | inl failed ↦ ground arith
      | inr (i, done) ↦ ground (arith, length-append es (e ∷ []))
    ]
    length-call api (o, es) publishes = omega arith

    call-IsLog :
        (api : Api) (s : Operator Blobs × List Bytes) (c : Call)
        → IsLogged s
        → length s.1 < 10 ^ 20
        → IsLogged (call stores api s c)
    unfolding call
    call-IsLog api (o, es) (appends e) log small = append-IsLog api o es e log small
    call-IsLog api (o, es) publishes log small =
        Extends-IsLog o _ es (publish-Extends stores kept api o) log

    calls-IsLog :
        (api : Api) (s : Operator Blobs × List Bytes) (cs : List Call)
        → IsLogged s
        → length s.1 + length cs ≤ 10 ^ 20
        → IsLogged (calls stores api s cs)
    unfolding calls
    calls-IsLog api s [] log few = log
    calls-IsLog api s (c ∷ cs) log few =
        calls-IsLog api (call stores api s c) cs (call-IsLog api s c log (omega arith))
          (omega (arith, length-call api s c))

    new-IsLog :
        (origin signer namespace author : Bytes) (blobs : Blobs) (o : Operator Blobs)
        → new_operator stores origin signer blobs namespace author ≡ some o
        → IsLog o []
    unfolding new_operator source find_entry
    new-IsLog origin signer namespace author blobs o h = record {
      size_is = ground arith;
      stored = λ i e none_there. absurd (ground arith);
      free = λ i past below k prefix. let empty : o.doc ≡ [] = ground arith in rw empty refl;
    }

    -- From a new operator on, over any Append and Publish, at most 10 ^ 20 of them: an Append that
    -- succeeds returns the number of the entries before it, and the operator's source reads under
    -- the key of each index the entry that was appended there, and nothing past the last; but an
    -- empty entry, which Append accepts and counts, cannot be read under its key.
    pub calls-Reads :
        (api : Api) (origin signer namespace author : Bytes) (blobs : Blobs) (o : Operator Blobs)
        (cs : List Call)
        → new_operator stores origin signer blobs namespace author ≡ some o
        → length cs ≤ 10 ^ 20
        → ((e : Bytes) (i : ℕ)
            → (append stores (calls stores api (o, []) cs).0 e).1 ≡ some i
            → i ≡ length (calls stores api (o, []) cs).1)
          × ((i : ℕ)
              → i < 10 ^ 20
              → blob (source stores (calls stores api (o, []) cs).0) (entry_key i)
                ≡ unless_empty (get_elem? (calls stores api (o, []) cs).1 i))
    calls-Reads api origin signer namespace author blobs o cs made few =
        let (p, es) = calls stores api (o, []) cs in
        let log =
          calls-IsLog api (o, []) cs (new-IsLog origin signer namespace author blobs o made)
            (omega arith) in
        (λ e i h. append-index p e i h ∙ log.size_is, λ i below. reads p es log i below)
