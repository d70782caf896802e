-- ===== src/Providers/Kafka/Consumers/Grouping.antt =====
-- The consumers follow the active sources (pkg/providers/kafka/provider.go,
-- `updateConsumerManagers`).
use mathlib.Core.List.{append_assoc}
use mathlib.Core.Option
use operion.Base.{
  String, Bool, true, false, ◌==◌, eq_iff, eq_refl, arith, ◌≡◌, refl, sym, ap, ◌∙◌, inl, inr,
  Bool-cases, if◌then◌else◌, List, [], ◌∷◌, ◌++◌, filter, Dict, lookup, insert, lookup-insert,
  insert_by, lookup-insert_by, Option, none, some,
}
use operion.Models.Source.{KafkaSource, ConsumerManager}
use operion.Providers.Kafka.Consumers.{
  by_id, group_or_none, add_to_group, group, manager_of, put, put_managers, keep_if, remove_unused,
  managers_for,
}

-- A group after more sources have been added.
abbrev extended : Option (List KafkaSource) → List KafkaSource → Option (List KafkaSource)
extended o [] = o
extended o (s ∷ ss) = some (group_or_none o ++ (s ∷ ss))

same : String → List KafkaSource → List KafkaSource
same c ss = filter (λ s. s.connection_details_id == c) ss

extended-add :
    (o : Option (List KafkaSource)) (s : KafkaSource) (ss : List KafkaSource)
    → extended (some (group_or_none o ++ (s ∷ []))) ss ≡ extended o (s ∷ ss)
extended-add o s [] = refl
extended-add o s (t ∷ ss) = ap some (append_assoc (group_or_none o) (s ∷ []) (t ∷ ss))

lookup-add_to_group :
    (c : String) (s : KafkaSource) (g : Dict (List KafkaSource))
    → lookup c (add_to_group s g) ≡ (
        if s.connection_details_id == c
        then some (group_or_none (lookup c g) ++ (s ∷ []))
        else lookup c g)
lookup-add_to_group c s g =
    lookup-insert s.connection_details_id c
      (group_or_none (lookup s.connection_details_id g) ++ (s ∷ [])) g
    ∙ at_key (s.connection_details_id == c) (λ e. (eq_iff s.connection_details_id c).0 e)
  where
    at_key :
        (b : Bool)
        → (b ≡ true → s.connection_details_id ≡ c)
        → (if b
            then some (group_or_none (lookup s.connection_details_id g) ++ (s ∷ []))
            else lookup c g)
          ≡ (if b then some (group_or_none (lookup c g) ++ (s ∷ [])) else lookup c g)
    at_key true e = ap (λ k. some (group_or_none (lookup k g) ++ (s ∷ []))) (e refl)
    at_key false e = refl

lookup-group :
    (c : String) (ss : List KafkaSource) (g : Dict (List KafkaSource))
    → lookup c (group ss g) ≡ extended (lookup c g) (same c ss)
unfolding group same
lookup-group c [] g = refl
lookup-group c (s ∷ ss) g =
    lookup-group c ss (add_to_group s g)
    ∙ ap (λ o. extended o (same c ss)) (lookup-add_to_group c s g)
    ∙ one_more (s.connection_details_id == c)
  where
    one_more :
        (b : Bool)
        → extended
            (if b then some (group_or_none (lookup c g) ++ (s ∷ [])) else lookup c g)
            (same c ss)
          ≡ extended (lookup c g) (elim b [ true ↦ s ∷ same c ss | false ↦ same c ss ])
    one_more true = extended-add (lookup c g) s (same c ss)
    one_more false = refl

-- Each key once.
abbrev Distinct : Dict (List KafkaSource) → Type 0
Distinct [] = Unit
Distinct ((k, ss) ∷ g) = (lookup k g ≡ none) × Distinct g

insert-Distinct :
    (k : String) (ss : List KafkaSource) (g : Dict (List KafkaSource))
    → Distinct g
    → Distinct (insert k ss g)
unfolding insert insert_by lookup
insert-Distinct k ss [] h = (refl, tt)
insert-Distinct k ss ((j, x) ∷ g) (q, h) = elim (Bool-cases (j == k)) [
  | inl e ↦ rw e (rw ((eq_iff j k).0 e) at q, h)
  | inr e ↦ rw e (absent e, insert-Distinct k ss g h)
]
  where
    absent : (j == k) ≡ false → lookup j (insert_by (λ _ _. false) k ss g) ≡ none
    absent e =
        lookup-insert_by (λ _ _. false) k j ss g ∙ ground (arith, eq_iff j k, eq_iff k j, e, q)

group-Distinct :
    (ss : List KafkaSource) (g : Dict (List KafkaSource)) → Distinct g → Distinct (group ss g)
unfolding group
group-Distinct [] g h = h
group-Distinct (s ∷ ss) g h = group-Distinct ss (add_to_group s g) (insert-Distinct _ _ g h)

lookup-put :
    (c id : String) (o : Option ConsumerManager) (m : Dict ConsumerManager)
    → (id == c) ≡ false
    → lookup c (put id o m) ≡ lookup c m
lookup-put c id none m e = refl
lookup-put c id (some manager) m e = lookup-insert id c manager m ∙ rw e refl

put_managers-absent :
    (c : String) (g : Dict (List KafkaSource)) (m : Dict ConsumerManager)
    → lookup c g ≡ none
    → lookup c (put_managers g m) ≡ lookup c m
unfolding put_managers lookup
put_managers-absent c [] m h = refl
put_managers-absent c ((id, ss) ∷ g) m h = elim (Bool-cases (id == c)) [
  | inl e ↦ absurd (cc (rw e at h))
  | inr e ↦
      put_managers-absent c g (put id (manager_of ss (lookup id m)) m) (rw e at h)
      ∙ lookup-put c id (manager_of ss (lookup id m)) m e
]

-- The sources of the manager of a connection, if there is one.
unfoldable pub sources_at : String → Dict ConsumerManager → Option (Dict KafkaSource)
sources_at c m = Option.map (λ manager. manager.sources) (lookup c m)

lookup-insert_same :
    (c : String) (x : ConsumerManager) (m : Dict ConsumerManager) → lookup c (insert c x m) ≡ some x
lookup-insert_same c x m = lookup-insert c c x m ∙ rw (eq_refl c) refl

manager_of-sources :
    (c : String) (s : KafkaSource) (ss : List KafkaSource) (o : Option ConsumerManager)
    (m : Dict ConsumerManager)
    → sources_at c (put c (manager_of (s ∷ ss) o) m) ≡ some (by_id (s ∷ ss) [])
unfolding sources_at
manager_of-sources c s ss none m =
    ap (Option.map (λ manager. manager.sources)) (lookup-insert_same c _ m)
manager_of-sources c s ss (some existing) m =
    ap (Option.map (λ manager. manager.sources)) (lookup-insert_same c _ m)

put_managers-sources :
    (c : String) (s : KafkaSource) (ss : List KafkaSource) (g : Dict (List KafkaSource))
    (m : Dict ConsumerManager)
    → Distinct g
    → lookup c g ≡ some (s ∷ ss)
    → sources_at c (put_managers g m) ≡ some (by_id (s ∷ ss) [])
unfolding put_managers lookup sources_at
put_managers-sources c s ss [] m h e = absurd (cc e)
put_managers-sources c s ss ((id, xs) ∷ g) m (q, h) e = elim (Bool-cases (id == c)) [
  | inl b ↦
      ap (Option.map (λ manager. manager.sources)) (
        put_managers-absent c g (put id (manager_of xs (lookup id m)) m)
          (rw ((eq_iff id c).0 b) at q))
      ∙ ap (λ i. sources_at c (put i (manager_of xs (lookup i m)) m)) ((eq_iff id c).0 b)
      ∙ ap (λ l. sources_at c (put c (manager_of l (lookup c m)) m))
          (Option.some-injective _ _ (rw b at e))
      ∙ manager_of-sources c s ss (lookup c m) m
  | inr b ↦ put_managers-sources c s ss g (put id (manager_of xs (lookup id m)) m) h (rw b at e)
]

kept_by : {A : Type 0} → Option (List KafkaSource) → Option A → Option A
kept_by none o = none
kept_by (some ss) o = o

lookup-remove_unused :
    (c : String) (g : Dict (List KafkaSource)) (m : Dict ConsumerManager)
    → lookup c (remove_unused g m) ≡ kept_by (lookup c g) (lookup c m)
unfolding remove_unused lookup kept_by
lookup-remove_unused c g [] = nothing (lookup c g)
  where
    nothing : (o : Option (List KafkaSource)) → none ≡ kept_by {A = ConsumerManager} o none
    nothing none = refl
    nothing (some ss) = refl
lookup-remove_unused c g ((id, manager) ∷ m) = elim (Bool-cases (id == c)) [
  | inl b ↦ rw b (here ((eq_iff id c).0 b) (lookup id g) refl (lookup-remove_unused c g m) b)
  | inr b ↦ rw b (elsewhere b (lookup id g) (lookup-remove_unused c g m))
]
  where
    Rest : Type 0
    Rest = lookup c (remove_unused g m) ≡ kept_by (lookup c g) (lookup c m)

    here :
        id ≡ c
        → (o : Option (List KafkaSource)) → lookup id g ≡ o
        → Rest
        → (id == c) ≡ true
        → lookup c (keep_if o id manager (remove_unused g m)) ≡ kept_by (lookup c g) (some manager)
    here i none e rest b =
        rest
        ∙ ap (λ o. kept_by o (lookup c m)) (ap (λ k. lookup k g) (sym i) ∙ e)
        ∙ sym (ap (λ o. kept_by o (some manager)) (ap (λ k. lookup k g) (sym i) ∙ e))
    here i (some ss) e rest b =
        rw b (sym (ap (λ o. kept_by o (some manager)) (ap (λ k. lookup k g) (sym i) ∙ e)))

    elsewhere :
        (id == c) ≡ false
        → (o : Option (List KafkaSource)) → Rest
        → lookup c (keep_if o id manager (remove_unused g m)) ≡ kept_by (lookup c g) (lookup c m)
    elsewhere b none rest = rest
    elsewhere b (some ss) rest = rw b rest

-- The sources by their identifiers, if there is one.
pub by_id_or_none : List KafkaSource → Option (Dict KafkaSource)
by_id_or_none [] = none
by_id_or_none (s ∷ ss) = some (by_id (s ∷ ss) [])

-- After an update of the consumers there is one for a connection exactly if an active source has
-- that connection's identifier, and the consumer then serves these sources.
pub managers_for-by_id :
    (c : String) (active : List KafkaSource) (m : Dict ConsumerManager)
    → sources_at c (managers_for active m)
      ≡ by_id_or_none (filter (λ s. s.connection_details_id == c) active)
unfolding managers_for sources_at same by_id_or_none kept_by lookup
managers_for-by_id c active m =
    ap (Option.map (λ manager. manager.sources))
      (lookup-remove_unused c (group active []) (put_managers (group active []) m))
    ∙ of_group (same c active) (lookup-group c active [])
  where
    g : Dict (List KafkaSource)
    g = group active []

    of_group :
        (ss : List KafkaSource)
        → lookup c g ≡ extended none ss
        → Option.map
            (λ manager. manager.sources)
            (kept_by (lookup c g) (lookup c (put_managers g m)))
          ≡ by_id_or_none ss
    of_group [] e = rw e refl
    of_group (s ∷ ss) e = rw e (put_managers-sources c s ss g m (group-Distinct active [] tt) e)
