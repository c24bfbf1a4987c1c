-- ===== src/Tests/Files.antt =====
-- A store that is saved and loaded, with numbers in place of JSON.
use tuna.Common.Int.{ℤ, pos, negsuc}
use tuna.Common.Dict.{Dict, lookup}
use tuna.Storage.{FavoriteNode, AvoidNode}
use tuna.Storage.Favorite.{Distinct, unexpired}
use tuna.Storage.File.{Json, written, Store, save_favorite_nodes, load}
use tuna.Storage.File.Saved.{all_written, load-save_favorite_nodes}
use tuna.Common.{
  ℕ, zero, suc, ◌≡◌, refl, sym, ap, ◌∙◌, subst, Bool, true, none, some, List, [], ◌∷◌, ◌++◌,
  append_assoc, append-nil, length, Text, codes, text_eq,
}

-- an encoding that is read from the front of a text
record Form (A : Type 0) : Type 0 where
  put : A → Text
  take_one : Text → A × Text
  take-put : (a : A) (rest : Text) → take_one (put a ++ rest) ≡ (a, rest)

abbrev head_or_zero : Text → ℕ × Text
head_or_zero [] = (0, [])
head_or_zero (n ∷ rest) = (n, rest)

abbrev number : Form ℕ
number = record { put = λ n. n ∷ []; take_one = head_or_zero; take-put = λ n rest. refl }

module _ {A B : Type 0} (f : Form A) (g : Form B) where
  put_pair : A × B → Text
  put_pair (a, b) = f.put a ++ g.put b

  take_pair : Text → (A × B) × Text
  take_pair text =
      let (a, rest) = f.take_one text in let (b, rest') = g.take_one rest in ((a, b), rest')

  take-put_pair : (p : A × B) (rest : Text) → take_pair (put_pair p ++ rest) ≡ (p, rest)
  unfolding put_pair take_pair
  take-put_pair (a, b) rest =
      rw (append_assoc (f.put a) (g.put b) rest, f.take-put a (g.put b ++ rest), g.take-put b rest)
        refl

  abbrev pair : Form (A × B)
  pair = record { put = put_pair; take_one = take_pair; take-put = take-put_pair }

module _ {A : Type 0} (f : Form A) where
  put_all : List A → Text
  put_all [] = []
  put_all (a ∷ l) = f.put a ++ put_all l

  take_all : ℕ → Text → List A × Text
  take_all zero text = ([], text)
  take_all (suc n) text =
      let (a, rest) = f.take_one text in let (l, rest') = take_all n rest in (a ∷ l, rest')

  take-put_all : (l : List A) (rest : Text) → take_all (length l) (put_all l ++ rest) ≡ (l, rest)
  unfolding put_all take_all
  take-put_all [] rest = refl
  take-put_all (a ∷ l) rest =
      rw
        (
          append_assoc (f.put a) (put_all l) rest,
          f.take-put a (put_all l ++ rest),
          take-put_all l rest,
        )
        refl

  put_list : List A → Text
  put_list l = length l ∷ put_all l

  take_list : Text → List A × Text
  take_list [] = ([], [])
  take_list (n ∷ rest) = take_all n rest

  take-put_list : (l : List A) (rest : Text) → take_list (put_list l ++ rest) ≡ (l, rest)
  unfolding put_list take_list
  take-put_list l rest = take-put_all l rest

  abbrev list : Form (List A)
  list = record { put = put_list; take_one = take_list; take-put = take-put_list }

-- a form of a type that another type stands for
module _ {A B : Type 0} (f : Form A) (to : B → A) (from : A → B)
    (back : (b : B) → from (to b) ≡ b) where
  take_as : Text → B × Text
  take_as text = let (a, rest) = f.take_one text in (from a, rest)

  take-put_as : (b : B) (rest : Text) → take_as (f.put (to b) ++ rest) ≡ (b, rest)
  unfolding take_as
  take-put_as b rest = rw (f.take-put (to b) rest, back b) refl

  abbrev as_form : Form B
  as_form = record { put = λ b. f.put (to b); take_one = take_as; take-put = take-put_as }

sign_of : ℤ → ℕ × ℕ
sign_of (pos n) = (0, n)
sign_of (negsuc n) = (1, n)

of_sign : ℕ × ℕ → ℤ
of_sign (zero, n) = pos n
of_sign (suc s, n) = negsuc n

of_sign-sign_of : (z : ℤ) → of_sign (sign_of z) ≡ z
unfolding of_sign sign_of
of_sign-sign_of (pos n) = refl
of_sign-sign_of (negsuc n) = refl

abbrev integer : Form ℤ
integer = as_form (pair number number) sign_of of_sign of_sign-sign_of

abbrev text_form : Form Text
text_form = list number

abbrev FavoriteParts : Type 0
FavoriteParts = (Text × Text) × ((Text × ℕ) × ((ℕ × ℕ) × ℤ))

abbrev favorite_of : FavoriteParts → FavoriteNode ℕ
favorite_of ((ip, address), ((metadata, delay), ((min_bandwidth, max_bandwidth), expires_at))) =
    record {
      ip = ip;
      address = address;
      metadata = metadata;
      delay = delay;
      min_bandwidth = min_bandwidth;
      max_bandwidth = max_bandwidth;
      expires_at = expires_at;
    }

abbrev favorite_parts : FavoriteNode ℕ → FavoriteParts
favorite_parts n =
    ((n.ip, n.address), ((n.metadata, n.delay), ((n.min_bandwidth, n.max_bandwidth), n.expires_at)))

abbrev favorite : Form (FavoriteNode ℕ)
favorite =
    as_form
      (pair (pair text_form text_form)
        (pair (pair text_form number) (pair (pair number number) integer)))
      favorite_parts favorite_of (λ n. refl)

abbrev AvoidParts : Type 0
AvoidParts = (Text × ℤ) × (Text × ℤ)

abbrev avoid_of : AvoidParts → AvoidNode
avoid_of ((ip, mask_size), (address, expires_at)) = record {
  ip = ip;
  mask_size = mask_size;
  address = address;
  expires_at = expires_at;
}

abbrev avoid : Form AvoidNode
avoid =
    as_form (pair (pair text_form integer) (pair text_form integer))
      (λ n. ((n.ip, n.mask_size), (n.address, n.expires_at))) avoid_of (λ n. refl)

module _ {V : Type 0} (f : Form V) where
  decode_with : Text → Dict V × Bool
  decode_with text = ((take_list (pair text_form f) text).0, true)

  decoded_ok : (t : Text) → (decode_with t).1 ≡ true
  unfolding decode_with
  decoded_ok t = refl

  decode_with-put : (m : Dict V) → (decode_with (put_list (pair text_form f) m)).0 ≡ m
  unfolding decode_with
  decode_with-put m =
      ap (λ (t : Text). (take_list (pair text_form f) t).0)
        (sym (append-nil (put_list (pair text_form f) m)))
      ∙ ap (λ (r : Dict V × Text). r.0) (take-put_list (pair text_form f) m [])

  decode-encode_with :
      (m : Dict V)
      → Distinct m
      → ((decode_with (put_list (pair text_form f) m)).1 ≡ true)
        × Distinct (decode_with (put_list (pair text_form f) m)).0
        × ((k : Text) → lookup k (decode_with (put_list (pair text_form f) m)).0 ≡ lookup k m)
  decode-encode_with m d = (
    decoded_ok (put_list (pair text_form f) m),
    subst Distinct (sym (decode_with-put m)) d,
    λ k. ap (λ (x : Dict V). lookup k x) (decode_with-put m),
  )

  abbrev json_of : Json V
  json_of = record {
    encode = put_list (pair text_form f);
    decode = decode_with;
    decode-encode = decode-encode_with;
  }

abbrev node : ℤ → FavoriteNode ℕ
node expires_at = record {
  ip = codes "10.0.0.1";
  address = codes "exit";
  metadata = [];
  delay = 1;
  min_bandwidth = 2;
  max_bandwidth = 3;
  expires_at = expires_at;
}

-- the second favorite has expired, and the file of the avoided nodes is broken
abbrev store : Store ℕ
store = record {
  favorite_file = none;
  avoid_file = some (codes "broken");
  favorite_nodes = (codes "a", node (pos 200)) ∷ (codes "b", node (pos 100)) ∷ [];
  avoid_nodes = [];
}

distinct : Distinct store.favorite_nodes
unfolding lookup text_eq
distinct = (refl, (refl, tt))

load-save_favorite_nodes_example :
    ((load
        (json_of favorite)
        (json_of (list (pair text_form avoid)))
        all_written
        (pos 150)
        (save_favorite_nodes (json_of favorite) written store).0).1
      ≡ true)
    × ((k : Text)
        → lookup k
            (load
              (json_of favorite)
              (json_of (list (pair text_form avoid)))
              all_written
              (pos 150)
              (save_favorite_nodes (json_of favorite) written store).0).0.favorite_nodes
          ≡ unexpired (pos 150) (lookup k store.favorite_nodes))
    × ((load
          (json_of favorite)
          (json_of (list (pair text_form avoid)))
          all_written
          (pos 150)
          (save_favorite_nodes (json_of favorite) written store).0).0.favorite_file
        ≡ some (
            (json_of favorite).encode
              (load
                (json_of favorite)
                (json_of (list (pair text_form avoid)))
                all_written
                (pos 150)
                (save_favorite_nodes (json_of favorite) written store).0).0.favorite_nodes))
load-save_favorite_nodes_example =
    load-save_favorite_nodes (json_of favorite) (json_of (list (pair text_form avoid))) (pos 150)
      store distinct
