-- ===== src/Conversation/Bound.antt =====
-- How many conversations the store holds, and how a conversation is found again.
use Prim.Native.Nat.{ℕ, ◌+◌, ◌<◌, ◌≤◌}
use mathlib.Core.Bool.{Bool, false, not, true}
use mathlib.Core.List.{List, [], map, ◌++◌, ◌∷◌}
use mathlib.Core.Logic.{inl, inr, ◌⊎◌}
use mathlib.Core.Option.{none, some}
use mathlib.Core.Path.{refl, sym, ◌≡◌}
use native.Mathlib.Omega.{arith}
use gemini_web2api_go.Base.Dict.{put, put-All, remove}
use gemini_web2api_go.Base.Int.{int_eq}
use gemini_web2api_go.Base.Lists.{All, keep, length, length-append, length-keep-le}
use gemini_web2api_go.Base.Tests.{Bool-cases, ltb, nat_eq, ◌==◌}
use gemini_web2api_go.Base.Text.{Text, is_empty, text_beq_iff, text_eq}
use gemini_web2api_go.Conversation.{
  ConvState, ConvStore, Message, assistant, conv_child_key, conv_max, conv_parent_key, conv_put,
  drop_last, evict, is_expired, oldest_from,
}
use gemini_web2api_go.Proxy.{is_excluded}

abbrev Keyed : Text → ConvStore → Type 0
Keyed k m = is_excluded k (map (λ e. e.0) m) ≡ true

length-put : (k : Text) (v : ConvState) (m : ConvStore) → length (put k v m) ≤ length m + 1
unfolding put
length-put k v [] = omega arith
length-put k v ((j, w) ∷ m) = ground (arith, length-put k v m)

length-remove-le : (k : Text) (m : ConvStore) → length (remove k m) ≤ length m
unfolding remove
length-remove-le k [] = omega arith
length-remove-le k ((j, v) ∷ m) = ground (arith, length-remove-le k m)

length-remove : (k : Text) (m : ConvStore) → Keyed k m → length (remove k m) < length m
unfolding remove is_excluded
length-remove k [] h = cc
length-remove k ((j, v) ∷ m) h = elim (Bool-cases (j == k)) [
  | inl e ↦ rw (e, remove) (omega (arith, length-remove-le k m))
  | inr e ↦
      let apart : (k == j) ≡ false = ground (arith, text_beq_iff j k, text_beq_iff k j) in
      rw (e, remove) (omega (arith, length-remove k m (rw apart at h)))
]

head-Keyed : (i j : Text) (v : ConvState) (m : ConvStore) → i ≡ j → Keyed j ((i, v) ∷ m)
unfolding is_excluded
head-Keyed i j v m q = rw ((text_beq_iff j i).1 (sym q))

tail-Keyed : (i j : Text) (v : ConvState) (m : ConvStore) → Keyed j m → Keyed j ((i, v) ∷ m)
unfolding is_excluded
tail-Keyed i j v m q = rw q (ground arith)

-- The key that a walk ends with is the one that it began with or one that it met.
oldest-some :
    (k : Text) (t : ℕ) (m : ConvStore)
    → (j : Text) × (u : ℕ) × (oldest_from (some (k, t)) m ≡ some (j, u)) × ((k ≡ j) ⊎ Keyed j m)
unfolding oldest_from is_excluded
oldest-some k t [] = (k, t, refl, inl refl)
oldest-some k t ((i, v) ∷ m) = elim (Bool-cases (ltb v.updated t)) [
  | inl e ↦
      let (j, u, same, which) = oldest-some i v.updated m in
      (
        j,
        u,
        rw (e, oldest_from) same,
        elim which [ inl q ↦ inr (head-Keyed i j v m q) | inr q ↦ inr (tail-Keyed i j v m q) ],
      )
  | inr e ↦
      let (j, u, same, which) = oldest-some k t m in
      (
        j,
        u,
        rw (e, oldest_from) same,
        elim which [ inl q ↦ inl q | inr q ↦ inr (tail-Keyed i j v m q) ],
      )
]

abbrev pub Named : ConvStore → Type 0
Named m = All (λ e. is_empty e.0 ≡ false) m

Named-key : (k : Text) (m : ConvStore) → Named m → Keyed k m → is_empty k ≡ false
unfolding is_excluded
Named-key k [] n h = cc
Named-key k ((j, v) ∷ m) n h = elim (Bool-cases (k == j)) [
  | inl e ↦ let same = (text_beq_iff k j).0 e in rw same n.0
  | inr e ↦ Named-key k m n.1 (rw e at h)
]

remove-Named : (k : Text) (m : ConvStore) → Named m → Named (remove k m)
unfolding remove
remove-Named k [] n = tt
remove-Named k ((j, v) ∷ m) n = elim (Bool-cases (j == k)) [
  | inl e ↦ rw (e, remove) (remove-Named k m n.1)
  | inr e ↦ rw (e, remove) (n.0, remove-Named k m n.1)
]

keep-Named : (f : Text × ConvState → Bool) (m : ConvStore) → Named m → Named (keep f m)
keep-Named f [] n = tt
keep-Named f (e ∷ m) n = elim (Bool-cases (f e)) [
  | inl h ↦ rw h (n.0, keep-Named f m n.1)
  | inr h ↦ rw h (keep-Named f m n.1)
]

-- The store is within its bound, and no key is empty.
abbrev pub Bounded : ConvStore → Type 0
Bounded m = (length m ≤ conv_max) × Named m

evict-Bounded :
    (m : ConvStore) → length m ≤ conv_max + 1 → Named m → Bounded (evict (oldest_from none m) m)
unfolding evict oldest_from is_excluded
evict-Bounded [] h n = (omega arith, tt)
evict-Bounded ((k, v) ∷ m) h n =
    let (j, u, same, which) = oldest-some k v.updated m in
    let keyed : Keyed j ((k, v) ∷ m) = elim which [
      | inl q ↦ head-Keyed k j v m q
      | inr q ↦ tail-Keyed k j v m q
    ] in
    let named = Named-key j ((k, v) ∷ m) n keyed in
    rw (same, named)
      (omega (arith, length-remove j ((k, v) ∷ m) keyed), remove-Named j ((k, v) ∷ m) n)

-- What a walk through a map gives: its entries, in some order.
pub record IsStoreWalk (walk : ConvStore → ConvStore) : Type 0 where
  pub same_length : (m : ConvStore) → length (walk m) ≡ length m
  pub same_names : (m : ConvStore) → Named m → Named (walk m)

-- In whatever order a map is walked through, storing a conversation keeps a bounded store
-- bounded: it never holds more than `convMax` conversations.
pub conv_put-Bounded :
    (walk : ConvStore → ConvStore) (now : ℕ) (s : ConvStore) (key : Text) (st : ConvState)
    → IsStoreWalk walk
    → Bounded s
    → Bounded (conv_put walk now s key st)
unfolding conv_put
conv_put-Bounded walk now s key st w b = elim (Bool-cases (is_empty key)) [
  | inl e ↦ rw (e, conv_put) b
  | inr e ↦
      let m = put key (record st { updated = now }) s in
      let named : Named m =
        put-All (λ k v. is_empty k ≡ false) key (record st { updated = now }) s b.1 e in
      let size = length-put key (record st { updated = now }) s in
      let f : Text × ConvState → Bool = λ x. not (is_expired now x.1) in
      let kept = keep f (walk m) in
      let fits : length kept ≤ conv_max + 1 =
        omega (arith, length-keep-le f (walk m), w.same_length m, b.0) in
      let kept_named = keep-Named f (walk m) (w.same_names m named) in
      elim (Bool-cases (ltb conv_max (length m))) [
        | inr q ↦ rw (e, conv_put, q) (ground arith, named)
        | inl q ↦ elim (Bool-cases (ltb conv_max (length kept))) [
          | inr r ↦ rw (e, conv_put, q, r) (ground arith, kept_named)
          | inl r ↦ rw (e, conv_put, q, r) (evict-Bounded kept fits kept_named)
        ]
      ]
]

drop_last-append : (ms : List Message) (m : Message) → drop_last (ms ++ m ∷ []) ≡ ms
drop_last-append [] m = refl
drop_last-append (n ∷ []) m = refl
drop_last-append (n ∷ o ∷ ms) m = rw (drop_last-append (o ∷ ms) m)

-- A client that sends a conversation back with the answer and one message more is found under the
-- key that the conversation was stored under after the answer, whatever the hash.
pub parent-child :
    (hash : Text → Text) (ms : List Message) (response : Text) (next : Message)
    → conv_parent_key hash ((ms ++ assistant response ∷ []) ++ next ∷ [])
      ≡ conv_child_key hash ms response
unfolding conv_parent_key conv_child_key
parent-child hash ms response next =
    let long : ltb (length ((ms ++ assistant response ∷ []) ++ next ∷ [])) 2 ≡ false = ground (
      arith,
      length-append (ms ++ assistant response ∷ []) (next ∷ []),
      length-append ms (assistant response ∷ []),
    ) in
    rw (conv_parent_key, long, drop_last-append (ms ++ assistant response ∷ []) next)
