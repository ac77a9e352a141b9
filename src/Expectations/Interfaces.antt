-- ===== src/Expectations/Interfaces.antt =====
-- What the expectations take from other packages: a store keyed by a function of its items
-- (k8s.io/client-go/tools/cache) and sets of texts (k8s.io/apimachinery/pkg/util/sets).
use virtink.Prelude.{
  ℕ, suc, ◌-◌, ◌<◌, ◌≡◌, Bool, true, false, ◌&&◌, ◌||◌, not, if◌then◌else◌, String, str_eq, Option,
  none, some, List,
}

-- Its operations do not fail, since the key functions of the program do not.
pub record KeyedStore (V : Type 0) (key_of : V → String) : Type 1 where
  pub Store : Type 0
  pub get_by_key : String → Store → Option V
  pub add : V → Store → Store
  pub delete : V → Store → Store
  pub list_keys : Store → List String
  pub get-key : (k : String) (v : V) (s : Store) → get_by_key k s ≡ some v → key_of v ≡ k
  pub get-add :
      (k : String) (v : V) (s : Store)
      → get_by_key k (add v s) ≡ (if str_eq (key_of v) k then some v else get_by_key k s)
  pub get-delete :
      (k : String) (v : V) (s : Store)
      → get_by_key k (delete v s) ≡ (if str_eq (key_of v) k then none else get_by_key k s)

pub record StringSet : Type 1 where
  pub Set : Type 0
  pub empty : Set
  pub insert : String → Set → Set
  pub remove : String → Set → Set
  pub has : String → Set → Bool
  pub len : Set → ℕ
  pub has-empty : (k : String) → has k empty ≡ false
  pub has-insert : (j k : String) (s : Set) → has j (insert k s) ≡ (str_eq k j || has j s)
  pub has-remove : (j k : String) (s : Set) → has j (remove k s) ≡ (not (str_eq k j) && has j s)
  pub len-empty : len empty ≡ 0
  pub len-insert :
      (k : String) (s : Set) → len (insert k s) ≡ (if has k s then len s else suc (len s))
  pub len-remove :
      (k : String) (s : Set) → len (remove k s) ≡ (if has k s then len s - 1 else len s)
  pub len-pos : (k : String) (s : Set) → has k s ≡ true → 0 < len s
  pub len-zero : (s : Set) → ((k : String) → has k s ≡ false) → len s ≡ 0
