-- ===== src/Engine/Server/Fits.antt =====
-- The conversations and the handles of a session of `ServerEngine` of
-- crates/udp2raw-ng-core/src/engine.rs.
use udp2raw_ng.Prelude.{
  ℕ, ◌≤◌, ◌≡◌, ◌≢◌, refl, sym, ◌∙◌, ap, inl, inr, ◌⊎◌, true, false, not, Option, none, some, arith,
  leb, ◌==◌, is_some, length, Bool-cases, Option-cases, ok, err,
}
use udp2raw_ng.Prelude.Maps.{
  Map, lookup, insert, remove, length-remove, length-remove_found, lookup-insert_self,
  lookup-insert_ne, lookup-insert_inv, lookup-remove_ne, lookup-remove_inv,
}
use udp2raw_ng.Errors.{unknown_conversation}
use udp2raw_ng.Config.{EngineConfig}
use udp2raw_ng.Engine.Handles.{SessionConversationHandles, new_handles, insert_both, bind, release}
use udp2raw_ng.Engine.Handles.Laws.{
  Paired, new_handles-Paired, insert_both-Paired, release-Paired, release_bound, release_unbound,
}

-- No more conversations than configured, and every handle stands for one of them.
pub record Fits (config : EngineConfig) (conversations : Map ℕ) (h : SessionConversationHandles)
    : Type 0 where
  pub small : length conversations ≤ config.max_conversations
  pub paired : Paired h
  pub backed :
      (handle id : ℕ)
      → lookup h.by_handle handle ≡ some id
      → (at : ℕ) × (lookup conversations id ≡ some at)

pub Fits-new :
    (config : EngineConfig) (conversations : Map ℕ)
    → length conversations ≤ config.max_conversations
    → Fits config conversations new_handles
Fits-new config conversations h = record {
  small = h;
  paired = new_handles-Paired;
  backed = λ handle id e. absurd cc;
}

-- A conversation that is there still is after an insertion.
kept-insert :
    (m : Map ℕ) (id now other : ℕ)
    → ((at : ℕ) × (lookup m other ≡ some at))
    → (at : ℕ) × (lookup (insert m id now) other ≡ some at)
kept-insert m id now other (at, e) = elim (Bool-cases (id == other)) [
  | inl same ↦
      let equal : id ≡ other = ground arith in
      (now, ap (lookup (insert m id now)) (sym equal) ∙ lookup-insert_self m id now)
  | inr differs ↦ let ne : id ≢ other = ground arith in (at, lookup-insert_ne m id other now ne ∙ e)
]

pub Fits-used :
    (config : EngineConfig) (m : Map ℕ) (h : SessionConversationHandles) (handle id now : ℕ)
    → Fits config m h
    → lookup h.by_handle handle ≡ some id
    → Fits config (insert m id now) h
Fits-used config m h handle id now f e =
    let (at, there) = f.backed handle id e in
    record {
      small = omega (arith, f.small, length-remove_found m id at there);
      paired = f.paired;
      backed = λ k c x. kept-insert m id now c (f.backed k c x);
    }

nothing : (o : Option ℕ) → is_some o ≡ false → o ≡ none
nothing none e = refl
nothing (some a) e = cc

-- What `bind` does.
pub bind_cases :
    (h : SessionConversationHandles) (k c : ℕ)
    → (bind h k c ≡ (err unknown_conversation, h))
      ⊎ ((bind h k c ≡ (ok tt, insert_both h k c))
          × (lookup h.by_handle k ≡ none)
          × (lookup h.by_id c ≡ none))
unfolding bind
bind_cases h k c = elim (Option-cases (lookup h.by_handle k)) [
  | inr (a, e) ↦ inl (rw e)
  | inl e ↦ elim (Option-cases (lookup h.by_id c)) [
    | inr (b, e1) ↦ inl (rw (e, e1))
    | inl e1 ↦ inr (rw (e, e1), e, e1)
  ]
]

-- A handle for a conversation that is there.
pub Fits-bound :
    (config : EngineConfig) (m : Map ℕ) (h : SessionConversationHandles) (k c at : ℕ)
    → Fits config m h
    → lookup m c ≡ some at
    → lookup h.by_handle k ≡ none
    → lookup h.by_id c ≡ none
    → Fits config m (insert_both h k c)
Fits-bound config m h k c at f there fresh_k fresh_c = record {
  small = f.small;
  paired = insert_both-Paired h k c f.paired fresh_k fresh_c;
  backed = λ j d x. elim (lookup-insert_inv h.by_handle k j c d x) [
    | inl new ↦ (at, ap (lookup m) (sym new.1) ∙ there)
    | inr old ↦ f.backed j d old.1
  ];
}

-- A new conversation with its handle.
pub Fits-opened :
    (config : EngineConfig) (m : Map ℕ) (h : SessionConversationHandles) (k c now : ℕ)
    → Fits config m h
    → not (leb config.max_conversations (length m)) ≡ true
    → lookup h.by_handle k ≡ none
    → lookup h.by_id c ≡ none
    → Fits config (insert m c now) (insert_both h k c)
Fits-opened config m h k c now f space fresh_k fresh_c = record {
  small = ground (arith, length-remove m c);
  paired = insert_both-Paired h k c f.paired fresh_k fresh_c;
  backed = λ j d x. elim (lookup-insert_inv h.by_handle k j c d x) [
    | inl new ↦ (now, ap (lookup (insert m c now)) (sym new.1) ∙ lookup-insert_self m c now)
    | inr old ↦ kept-insert m c now d (f.backed j d old.1)
  ];
}

some_same : {a b : ℕ} → some a ≡ some b → a ≡ b
some_same e = cc

-- A handle that is left after a release stands for another conversation.
released_other :
    (h : SessionConversationHandles) (c k d : ℕ)
    → Paired h
    → lookup (release h c).by_handle k ≡ some d
    → (c ≢ d) × (lookup h.by_handle k ≡ some d)
released_other h c k d p x = elim (Option-cases (lookup h.by_id c)) [
  | inl e ↦
      let old : lookup h.by_handle k ≡ some d = rw (release_unbound h c e) at x in
      (
        λ same.
            let held = p.back k d old in
            let bad : ◌≡◌ {A = Option ℕ} none (some k) = sym e ∙ ap (lookup h.by_id) same ∙ held in
            cc,
        old,
      )
  | inr (j, e) ↦
      let left : lookup (remove h.by_handle j) k ≡ some d = rw (release_bound h c j e) at x in
      let (differ, old) = lookup-remove_inv h.by_handle j k d left in
      (λ same. differ (some_same (sym e ∙ ap (lookup h.by_id) same ∙ p.back k d old)), old)
]

pub Fits-released :
    (config : EngineConfig) (m : Map ℕ) (h : SessionConversationHandles) (c : ℕ)
    → Fits config m h
    → Fits config (remove m c) (release h c)
Fits-released config m h c f = record {
  small = omega (arith, f.small, length-remove m c);
  paired = (release-Paired h c f.paired).0;
  backed = λ k d x.
      let (differ, old) = released_other h c k d f.paired x in
      let (at, there) = f.backed k d old in (at, lookup-remove_ne m c d differ ∙ there);
}
