-- ===== src/Manager/Barrier/Names.antt =====
-- code/src/model_manger.cpp: the folders of two versions and the keys of two nodes are told apart.
use prob_alimama_2023_a.Base.{
  ℕ, ◌≡◌, refl, sym, ap, ◌∙◌, false, [], ◌∷◌, ◌++◌, arith, append_assoc, append-nil, All, All-map,
  Bytes, codes, ◌==◌,
}
use prob_alimama_2023_a.Text.{to_string}
use prob_alimama_2023_a.Text.Numbers.{to_string-eq, to_string-digit}
use prob_alimama_2023_a.Manager.Barrier.{version_dir, target_dir, node_key}

append-cancel : (xs ys zs : Bytes) → xs ++ ys ≡ xs ++ zs → ys ≡ zs
append-cancel [] ys zs e = e
append-cancel (x ∷ xs) ys zs e = append-cancel xs ys zs (cc e)

pub node_key-eq : (version i j : ℕ) → node_key version i ≡ node_key version j → i ≡ j
unfolding node_key
node_key-eq version i j e = to_string-eq i j [] [] tt tt (
    append-nil (to_string i)
    ∙ append-cancel (target_dir version) (to_string i) (to_string j) e
    ∙ sym (append-nil (to_string j)))

-- A path below a folder, with the version in front.
target_dir-append :
    (v : ℕ) (name : Bytes) → target_dir v ++ name ≡ version_dir ++ (to_string v ++ (b'/' ∷ name))
unfolding target_dir
target_dir-append v name =
    append_assoc version_dir (to_string v ++ codes "/") name
    ∙ ap (λ z. version_dir ++ z) (append_assoc (to_string v) (codes "/") name)

pub target_dir-eq : (v w : ℕ) (x y : Bytes) → target_dir v ++ x ≡ target_dir w ++ y → v ≡ w
target_dir-eq v w x y e = to_string-eq v w (b'/' ∷ x) (b'/' ∷ y) refl refl (
    append-cancel version_dir (to_string v ++ (b'/' ∷ x)) (to_string w ++ (b'/' ∷ y))
      (sym (target_dir-append v x) ∙ e ∙ target_dir-append w y))

pub to_string-NoSlash : (n : ℕ) → All (λ c. (c == b'/') ≡ false) (to_string n)
to_string-NoSlash n = All-map (λ c h. ground (arith, h)) (to_string n) (to_string-digit n)
