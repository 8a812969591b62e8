-- ===== src/Discovery/Memory.antt =====
-- An API server in memory, which keeps what `IsReliable` asks for.
use text.Mathlib.TextEquality.{eq_iff}
use gnmic_operator.Prelude.{
  String, Bool, true, false, ◌&&◌, Option, none, some, List, [], ◌∷◌, map, ◌≡◌, refl, ap, ◌∙◌, ◌⊎◌,
  ◌==◌, string_eq, ==_refl, contains, arith, if◌then◌else◌,
}
use gnmic_operator.Prelude.Dict.{Dict, keys, lookup, insert, delete, is_some, contains-keys}
use gnmic_operator.Discovery.Types.{Target, TargetSource}
use gnmic_operator.Discovery.Client.{Api, Fetched, found, not_found, written, SourceStatus}
use gnmic_operator.Discovery.Reliable.{Store, IsReliable, IsFree, is_selected, or_blank}

pub record Server : Type 0 where
  pub stores : String → Store
  pub status : SourceStatus

abbrev pub stored_targets : String → Server → Store
stored_targets ns w = w.stores ns

abbrev put_store : String → Store → Server → Server
put_store ns d w = record w { stores = λ other. if other == ns then d else w.stores other }

abbrev pick : Dict String String → String → Option Target → List Target → List Target
pick sel k none rest = rest
pick sel k (some t) rest = if is_selected sel (some t) then record t { name = k } ∷ rest else rest

select : Dict String String → Store → List String → List Target
select sel d [] = []
select sel d (k ∷ ks) = pick sel k (lookup k d) (select sel d ks)

abbrev answer : Option Target → Fetched Target
answer none = not_found
answer (some t) = found t

abbrev owned_by : TargetSource → Target → Option String → Option Target
owned_by ts t none = some (record t { owner = some ts.name })
owned_by ts t (some o) = if o == ts.name then some (record t { owner = some ts.name }) else none

abbrev create : Target → Option Target → Server → Bool × Server
create b none w = (false, w)
create b (some t) w = (true, put_store b.namespace (insert b.name t (w.stores b.namespace)) w)

abbrev pub memory : Api Server
unfolding select
memory = record {
  done = λ w. (false, w);
  now = λ w. (0, w);
  list = λ ns sel w. (some (select sel (w.stores ns) (keys (w.stores ns))), w);
  get = λ ns n w. (answer (lookup n (w.stores ns)), w);
  delete = λ ns n w. (written, put_store ns (delete n (w.stores ns)) w);
  create_or_update = λ b f w. create b (f (or_blank b (lookup b.name (w.stores b.namespace)))) w;
  set_controller_reference = λ ts t. owned_by ts t t.owner;
  retry_on_conflict = λ f w. f w;
  get_status = λ ns n w. (found w.status, w);
  update_status = λ ns n s w. (written, record w { status = s });
}

contains-select :
    (sel : Dict String String) (d : Store) (ks : List String) (n : String)
    → contains (map (λ t. t.name) (select sel d ks)) n
      ≡ (contains ks n && is_selected sel (lookup n d))
unfolding select
contains-select sel d [] n = refl
contains-select sel d (k ∷ ks) n = ground (arith, contains-select sel d ks n, eq_iff k n)

selected_absent :
    (sel : Dict String String) (o : Option Target)
    → (is_some o && is_selected sel o) ≡ is_selected sel o
selected_absent sel none = refl
selected_absent sel (some t) = refl

put_same : (ns : String) (d : Store) (w : Server) → (put_store ns d w).stores ns ≡ d
put_same ns d w = rw (==_refl ns)

owned_free_by :
    (ts : TargetSource) (t : Target) (o : Option String)
    → (o ≡ none) ⊎ (o ≡ some ts.name)
    → owned_by ts t o ≡ some (record t { owner = some ts.name })
owned_free_by ts t none h = refl
owned_free_by ts t (some o) h = ground (arith, eq_iff o ts.name)

owned_free :
    (ts : TargetSource) (t : Target)
    → IsFree ts t
    → owned_by ts t t.owner ≡ some (record t { owner = some ts.name })
owned_free ts t h = owned_free_by ts t t.owner h

pub memory-IsReliable : IsReliable memory stored_targets
unfolding memory
memory-IsReliable = record {
  live = λ w. refl;
  list_lem = λ ns sel w. (
    select sel (w.stores ns) (keys (w.stores ns)),
    refl,
    λ n.
        contains-select sel (w.stores ns) (keys (w.stores ns)) n
        ∙ ap (λ b. b && is_selected sel (lookup n (w.stores ns))) (contains-keys n (w.stores ns))
        ∙ selected_absent sel (lookup n (w.stores ns)),
  );
  get_found = λ ns n w t e. ap (λ o. (answer o, w)) e;
  get_missing = λ ns n w e. ap (λ o. (answer o, w)) e;
  delete_written = λ ns n w. refl;
  delete_lem = λ ns n w. put_same ns (delete n (w.stores ns)) w;
  create_or_update_done = λ b t f w e. ap (λ o. (create b o w).0) e;
  create_or_update_lem = λ b t f w e.
      ap (λ o. stored_targets b.namespace (create b o w).1) e
      ∙ put_same b.namespace (insert b.name t (w.stores b.namespace)) w;
  set_controller_reference_lem = owned_free;
  retry_lem = λ f ns d keep w e. keep w e;
  now_keeps = λ ns w. refl;
  get_status_keeps = λ ns m n w. refl;
  update_status_keeps = λ ns m n s w. refl;
}
