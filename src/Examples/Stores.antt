-- ===== src/Examples/Stores.antt =====
-- The stores and the sets of the expectations, as lists.
use virtink.Prelude.{
  ℕ, suc, ◌-◌, ◌<◌, ◌≡◌, refl, true, false, not, ◌&&◌, if◌then◌else◌, String, str_eq, str_eq_iff,
  Option, none, some, List, [], ◌∷◌, map, arith,
}
use virtink.Prelude.Map.{contains}
use virtink.Expectations.Interfaces.{KeyedStore, StringSet}
use virtink.Expectations.Counters.{exp_key}
use virtink.Expectations.Tracking.{uid_set_key, Stores, Expectations}

abbrev size : List String → ℕ
size [] = 0
size (k ∷ s) = if contains s k then size s else suc (size s)

abbrev without : String → List String → List String
without k [] = []
without k (j ∷ s) = if str_eq k j then without k s else j ∷ without k s

pub contains-without :
    (j k : String) (s : List String) → contains (without k s) j ≡ (not (str_eq k j) && contains s j)
contains-without j k [] = ground arith
contains-without j k (i ∷ s) =
    ground (arith, contains-without j k s, str_eq_iff k i, str_eq_iff k j, str_eq_iff i j)

pub size-pos : (k : String) (s : List String) → contains s k ≡ true → 0 < size s
size-pos k [] h = cc h
size-pos k (j ∷ s) h = ground (arith, size-pos k s, size-pos j s, str_eq_iff j k)

pub size-without :
    (k : String) (s : List String)
    → size (without k s) ≡ (if contains s k then size s - 1 else size s)
size-without k [] = refl
size-without k (j ∷ s) = ground (
  arith,
  size-without k s,
  contains-without j k s,
  str_eq_iff k j,
  str_eq_iff j k,
  size-pos k s,
  size-pos j s,
)

pub size-zero : (s : List String) → ((k : String) → contains s k ≡ false) → size s ≡ 0
size-zero [] h = refl
size-zero (j ∷ s) h = absurd (ground (arith, h j, str_eq_iff j j))

abbrev string_set : StringSet
string_set = record {
  Set = List String;
  empty = [];
  insert = λ k s. k ∷ s;
  remove = without;
  has = λ k s. contains s k;
  len = size;
  has-empty = λ k. refl;
  has-insert = λ j k s. refl;
  has-remove = contains-without;
  len-empty = refl;
  len-insert = λ k s. refl;
  len-remove = size-without;
  len-pos = size-pos;
  len-zero = size-zero;
}

module _ {V : Type 0} (key_of : V → String) where
  abbrev get : String → List V → Option V
  get k [] = none
  get k (v ∷ vs) = if str_eq (key_of v) k then some v else get k vs

  abbrev drop_key : String → List V → List V
  drop_key k [] = []
  drop_key k (v ∷ vs) = if str_eq (key_of v) k then drop_key k vs else v ∷ drop_key k vs

  pub get-drop_key :
      (k j : String) (vs : List V) → get k (drop_key j vs) ≡ (if str_eq j k then none else get k vs)
  get-drop_key k j [] = ground arith
  get-drop_key k j (v ∷ vs) =
      ground (
        arith,
        get-drop_key k j vs,
        str_eq_iff (key_of v) j,
        str_eq_iff (key_of v) k,
        str_eq_iff j k,
      )

  pub get_key : (k : String) (v : V) (vs : List V) → get k vs ≡ some v → key_of v ≡ k
  get_key k v [] h = cc
  get_key k v (w ∷ vs) h = grind (arith, str_eq_iff (key_of w) k, get_key k v vs)

  abbrev keyed : KeyedStore V key_of
  keyed = record {
    Store = List V;
    get_by_key = get;
    add = λ v vs. v ∷ vs;
    delete = λ v vs. drop_key (key_of v) vs;
    list_keys = map key_of;
    get-key = get_key;
    get-add = λ k v s. refl;
    get-delete = λ k v s. get-drop_key k (key_of v) s;
  }

abbrev pub stores : Stores
stores = record { strings = string_set; counters = keyed exp_key; uid_sets = keyed uid_set_key }

abbrev pub no_expectations : Expectations stores
no_expectations = record { counters = []; uid_store = [] }
