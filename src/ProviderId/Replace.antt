-- ===== src/ProviderId/Replace.antt =====
-- `strings.HasPrefix` and `strings.ReplaceAll` on texts that begin with the searched text.
use hcloud_cloud_controller.Common.{
  ℕ, suc, ◌-◌, ◌≡◌, ◌≢◌, refl, true, false, [], ◌∷◌, ◌++◌, arith, length, All,
}
use hcloud_cloud_controller.ProviderId.{Bytes, has_prefix, sweep, remove_all}

pub has_prefix-append : (p s : Bytes) → has_prefix (p ++ s) p ≡ true
unfolding has_prefix
has_prefix-append [] [] = refl
has_prefix-append [] (d ∷ s) = refl
has_prefix-append (c ∷ p) s = ground (arith, has_prefix-append p s)

-- A text with a long prefix has each shorter one.
pub has_prefix_shorter : (s p q : Bytes) → has_prefix s (p ++ q) ≡ true → has_prefix s p ≡ true
unfolding has_prefix
has_prefix_shorter [] [] q h = refl
has_prefix_shorter (d ∷ s) [] q h = refl
has_prefix_shorter [] (c ∷ p) q h = h
has_prefix_shorter (d ∷ s) (c ∷ p) q h = ground (arith, has_prefix_shorter s p q)

sweep_drop : (old q s : Bytes) → sweep old (length q) (q ++ s) ≡ sweep old 0 s
unfolding sweep
sweep_drop old [] s = refl
sweep_drop old (c ∷ q) s = sweep_drop old q s

-- An occurrence at the front is dropped, and the search goes on behind it.
pub remove_all_front :
    (c : ℕ) (q s : Bytes) → remove_all (c ∷ q) ((c ∷ q) ++ s) ≡ remove_all (c ∷ q) s
unfolding remove_all
remove_all_front c q s =
    rw (has_prefix-append (c ∷ q) s, sweep)
      (let e : suc (length q) - 1 ≡ length q = omega arith in rw e (sweep_drop (c ∷ q) q s))

-- A text without the first byte of the searched text stays as it is.
pub remove_all-Lacks : (c : ℕ) (q s : Bytes) → All (λ d. d ≢ c) s → remove_all (c ∷ q) s ≡ s
unfolding remove_all has_prefix
remove_all-Lacks c q [] h = refl
remove_all-Lacks c q (d ∷ s) (hd, hs) = ground (arith, remove_all-Lacks c q s hs)

pub has_prefix-Lacks : (c : ℕ) (q s : Bytes) → All (λ d. d ≢ c) s → has_prefix s (c ∷ q) ≡ false
unfolding has_prefix
has_prefix-Lacks c q [] h = refl
has_prefix-Lacks c q (d ∷ s) (hd, hs) = ground arith
