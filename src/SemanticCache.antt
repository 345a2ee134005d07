-- ===== src/SemanticCache.antt =====
-- The semantic cache of answers (SemanticCache of core/response_cache.py). The embedding model,
-- the similarity of two embeddings and the hash of an embedding are parameters; similarities are
-- whole numbers of a smallest unit, a negative one counting as 0, which matches nothing either,
-- and the rounding of the similarity that is reported is left out. Redis holds for each tenant an
-- index (a hash from entry ids) and the answers, each with an expiry.
pub mod Best
pub mod Shrinks
pub mod Isolation
use llm_dashboard.Base.{
  ℕ, ◌+◌, ◌*◌, Bool, true, false, ◌&&◌, ◌||◌, not, Option, none, some, List, [], ◌∷◌, String,
  str_eq, if◌then◌else◌, ltb, leb, filter, length,
}

pub record IndexEntry (Embedding : Type 0) : Type 0 where
  pub embedding : Embedding
  pub model : String
  pub cached_at : ℕ

-- What is stored beside the index; the preview of the prompt and the metadata are left out.
pub record Answer : Type 0 where
  pub response : String
  pub model : String
  pub cached_at : ℕ

abbrev pub Index : Type 0 → Type 0
Index E = List (String × IndexEntry E)

-- A value of Redis with the time at which it expires.
pub record Timed (A : Type 0) : Type 0 where
  pub value : A
  pub expires_at : Option ℕ

pub record Cache (E : Type 0) : Type 0 where
  pub index : String → Timed (Index E)
  pub answers : String → String → Option (Timed Answer)

pub record Hit : Type 0 where
  pub answer : Answer
  pub similarity : ℕ
  pub entry_id : String

unfoldable pub has_time : ℕ → Option ℕ → Bool
has_time now none = true
has_time now (some t) = ltb now t

-- What stands for the sentence transformer, the dot product and the MD5 of the first dimensions.
pub record Encoder (E : Type 0) : Type 0 where
  pub compute_embedding : String → Option E
  pub similarity : E → E → ℕ
  pub embedding_hash : E → String

-- What a call finds: the time, how many commands reach Redis before it fails.
pub record Link : Type 0 where
  pub now : ℕ
  pub reaches : ℕ

unfoldable pub answer_at : ℕ → Option (Timed Answer) → Option Answer
unfolding has_time
answer_at now none = none
answer_at now (some t) = if has_time now t.expires_at then some t.value else none

module _ {E : Type 0} where
  -- `HGETALL`: a hash that has expired is empty.
  unfoldable pub entries_at : ℕ → Timed (Index E) → Index E
  unfolding has_time
  entries_at now t = if has_time now t.expires_at then t.value else []

  -- `HDEL`
  unfoldable pub hdel : String → Index E → Index E
  hdel i xs = filter (λ p. not (str_eq p.0 i)) xs

  -- `HSET`; the order in which `HGETALL` gives the entries is up to Redis.
  unfoldable pub hset : String → IndexEntry E → Index E → Index E
  unfolding hdel
  hset i e xs = (i, e) ∷ hdel i xs

  -- An entry of another model is passed over, if both models are given.
  unfoldable pub compatible : String → IndexEntry E → Bool
  compatible model e = str_eq model "" || (str_eq e.model "" || str_eq e.model model)

  unfoldable pub set_index : String → Timed (Index E) → Cache E → Cache E
  set_index tenant t c = record c {
    index = λ other. if str_eq tenant other then t else c.index other;
  }

  unfoldable pub set_answer : String → String → Option (Timed Answer) → Cache E → Cache E
  set_answer tenant i a c = record c {
    answers = λ other j. if str_eq tenant other && str_eq i j then a else c.answers other j;
  }

  module _ (m : Encoder E) where
    -- One round of the loop over the index: the best match so far with its similarity, and an entry.
    unfoldable pub better :
        E → String → ℕ → Option String × ℕ → String × IndexEntry E → Option String × ℕ
    unfolding compatible
    better q model threshold best (i, e) =
        let s = m.similarity q e.embedding in
        if compatible model e && (ltb best.1 s && leb threshold s) then (some i, s) else best

    unfoldable pub search_from : E → String → ℕ → Option String × ℕ → Index E → Option String × ℕ
    unfolding better
    search_from q model threshold best [] = best
    search_from q model threshold best (p ∷ xs) =
        search_from q model threshold (better q model threshold best p) xs

    unfoldable pub best_match : E → String → ℕ → Index E → Option String × ℕ
    unfolding search_from
    best_match q model threshold xs = search_from q model threshold (none, 0) xs

    -- A stale entry of the index is removed, if that command reaches Redis.
    unfoldable pub lookup_embedding :
        Link → E → String → String → ℕ → Cache E → Cache E × Option Hit
    unfolding hdel set_index
    lookup_embedding l q tenant model threshold c =
        let (found, top) = best_match q model threshold (entries_at l.now (c.index tenant)) in
        elim found [
          | none ↦ (c, none)
          | some i ↦
              if ltb l.reaches 2 then (c, none) else elim (answer_at l.now (c.answers tenant i)) [
                | some a ↦ (c, some (record { answer = a; similarity = top; entry_id = i }))
                | none ↦ (
                  if ltb l.reaches 3
                      then c
                      else set_index tenant
                          (record (c.index tenant) {
                            value = hdel i (entries_at l.now (c.index tenant));
                          })
                          c,
                  none,
                )
              ]
        ]

    unfoldable pub lookup : Link → String → String → String → ℕ → Cache E → Cache E × Option Hit
    unfolding lookup_embedding
    lookup l prompt tenant model threshold c = elim (m.compute_embedding prompt) [
      | none ↦ (c, none)
      | some q ↦
          if ltb l.reaches 1 then (c, none) else lookup_embedding l q tenant model threshold c
    ]

    -- The three commands of `store`: HSET, EXPIRE and SET.
    unfoldable pub put_index : Link → E → String → String → Cache E → Cache E
    unfolding hset set_index
    put_index l q tenant model c =
        set_index tenant
          (record {
            value =
                hset (m.embedding_hash q)
                  (record { embedding = q; model = model; cached_at = l.now })
                  (entries_at l.now (c.index tenant));
            expires_at =
                if has_time l.now (c.index tenant).expires_at
                then (c.index tenant).expires_at
                else none;
          })
          c

    unfoldable pub extend_index : Link → String → ℕ → Cache E → Cache E
    unfolding set_index
    extend_index l tenant ttl c =
        set_index tenant (record (c.index tenant) { expires_at = some (l.now + ttl * 2) }) c

    unfoldable pub put_answer : Link → E → String → String → String → ℕ → Cache E → Cache E
    unfolding set_answer
    put_answer l q response tenant model ttl c =
        set_answer tenant (m.embedding_hash q)
          (some (record {
            value = record { response = response; model = model; cached_at = l.now };
            expires_at = some (l.now + ttl);
          }))
          c

    unfoldable pub store : Link → String → String → String → String → ℕ → Cache E → Cache E × Bool
    unfolding put_index extend_index put_answer
    store l prompt response tenant model ttl c = elim (m.compute_embedding prompt) [
      | none ↦ (c, false)
      | some q ↦
          let indexed = put_index l q tenant model c in
          let extended = extend_index l tenant ttl indexed in
          if ltb l.reaches 1
          then (c, false)
          else if ltb l.reaches 2
          then (indexed, false)
          else if ltb l.reaches 3
          then (extended, false)
          else (put_answer l q response tenant model ttl extended, true)
    ]

  unfoldable pub drop_answers : String → Index E → Cache E → Cache E
  unfolding set_answer
  drop_answers tenant [] c = c
  drop_answers tenant ((i, e) ∷ xs) c = drop_answers tenant xs (set_answer tenant i none c)

  -- `invalidate_tenant`, where every command reaches Redis.
  unfoldable pub invalidate_tenant : ℕ → String → Cache E → Cache E × ℕ
  unfolding drop_answers set_index
  invalidate_tenant now tenant c =
      let xs = entries_at now (c.index tenant) in
      (
        set_index tenant (record { value = []; expires_at = none }) (drop_answers tenant xs c),
        length xs,
      )
