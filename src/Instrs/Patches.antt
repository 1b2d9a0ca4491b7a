-- ===== src/Instrs/Patches.antt =====
-- All the patches of a linker, src/x86_64/machine_code/linker.cc.
use katara.Prelude.{◌≡◌, ◌∙◌, refl, List, [], ◌∷◌, inl, inr}
use katara.Prelude.Int.{ℤ, pos, ◌+ℤ◌, ◌≤ℤ◌, int_laws}
use katara.Prelude.Result.{ok}
use katara.Instrs.Linker.{Patch, Linker, Code, apply_patch_list, apply_patches}
use katara.Instrs.Linking.{Ready, Leads, Apart, Outside, apply_patch-Ready, target-same}

abbrev pub AllReady : List (ℤ × ℤ) → List Patch → Type 0
AllReady addrs [] = Unit {0}
AllReady addrs (p ∷ ps) = Ready addrs p × AllReady addrs ps

abbrev pub ApartFrom : Patch → List Patch → Type 0
ApartFrom p [] = Unit {0}
ApartFrom p (q ∷ qs) = Apart p q × ApartFrom p qs

abbrev pub AllApart : List Patch → Type 0
AllApart [] = Unit {0}
AllApart (p ∷ ps) = ApartFrom p ps × AllApart ps

abbrev pub EachApart : List Patch → List Patch → Type 0
EachApart [] qs = Unit {0}
EachApart (p ∷ ps) qs = ApartFrom p qs × EachApart ps qs

abbrev pub AllLead : List (ℤ × ℤ) → Code → List Patch → Type 0
AllLead addrs code [] = Unit {0}
AllLead addrs code (p ∷ ps) = Leads addrs code p × AllLead addrs code ps

-- No byte that one of the patches is for.
abbrev pub OutsideAll : List Patch → ℤ → Type 0
OutsideAll [] x = Unit {0}
OutsideAll (p ∷ ps) x = Outside p.view.base x × OutsideAll ps x

abbrev pub AgreeOutside : Code → Code → List Patch → Type 0
AgreeOutside code code' ps = (x : ℤ) → OutsideAll ps x → code' x ≡ code x

inside-outside :
    (p : Patch) (qs : List Patch) (x : ℤ)
    → ApartFrom p qs
    → p.view.base ≤ℤ x
    → x +ℤ pos 1 ≤ℤ p.view.base +ℤ pos 4
    → OutsideAll qs x
inside-outside p [] x h l u = tt
inside-outside p (q ∷ qs) x (inl h, rest) l u =
    (inl (omega int_laws), inside-outside p qs x rest l u)
inside-outside p (q ∷ qs) x (inr h, rest) l u =
    (inr (omega int_laws), inside-outside p qs x rest l u)

-- A patch still leads where it led after writes to other bytes.
Leads-kept :
    (addrs : List (ℤ × ℤ)) (code code' : Code) (p : Patch) (qs : List Patch)
    → ApartFrom p qs
    → AgreeOutside code code' qs
    → Leads addrs code p
    → Leads addrs code' p
Leads-kept addrs code code' p qs h same (dest, known, leads) = (
  dest,
  known,
  target-same code code' p.view.base (λ x l u. same x (inside-outside p qs x h l u)) ∙ leads,
)

AllLead-kept :
    (addrs : List (ℤ × ℤ)) (code code' : Code) (ps qs : List Patch)
    → EachApart ps qs
    → AgreeOutside code code' qs
    → AllLead addrs code ps
    → AllLead addrs code' ps
AllLead-kept addrs code code' [] qs h same l = tt
AllLead-kept addrs code code' (p ∷ ps) qs (h, hs) same (l, ls) =
    (Leads-kept addrs code code' p qs h same l, AllLead-kept addrs code code' ps qs hs same ls)

pub apply_patch_list-Ready :
    (addrs : List (ℤ × ℤ)) (code : Code) (ps : List Patch)
    → AllReady addrs ps
    → AllApart ps
    → (code' : Code) × (apply_patch_list addrs code ps ≡ ok code')
      × AllLead addrs code' ps
      × AgreeOutside code code' ps
unfolding apply_patch_list
apply_patch_list-Ready addrs code [] h k = (code, refl, tt, λ x out. refl)
apply_patch_list-Ready addrs code (p ∷ ps) (h, hs) (k, ks) =
    let (c1, e1, l1, same1) = apply_patch-Ready addrs code p h in
    let (c2, e2, l2, same2) = apply_patch_list-Ready addrs c1 ps hs ks in
    (
      c2,
      rw e1 e2,
      (Leads-kept addrs c1 c2 p ps k same2 l1, l2),
      λ x out. same2 x out.1 ∙ same1 x out.0,
    )

-- Where every patch of the linker has a view of at least four bytes, a known destination and a distance
-- that fits in 32 bits, and no two patches share a byte, `ApplyPatches` succeeds; after it every jump and
-- call leads to the address of its block or function, and no other byte of the code has changed.
pub apply_patches_exact :
    (l : Linker) (code : Code)
    → AllReady l.func_addrs l.func_patches
    → AllReady l.block_addrs l.block_patches
    → AllApart l.func_patches
    → AllApart l.block_patches
    → EachApart l.func_patches l.block_patches
    → (code' : Code) × (apply_patches l code ≡ ok code')
      × AllLead l.func_addrs code' l.func_patches
      × AllLead l.block_addrs code' l.block_patches
      × ((x : ℤ) → OutsideAll l.func_patches x → OutsideAll l.block_patches x → code' x ≡ code x)
unfolding apply_patches
apply_patches_exact l code fs bs af ab each =
    let (c1, e1, l1, same1) = apply_patch_list-Ready l.func_addrs code l.func_patches fs af in
    let (c2, e2, l2, same2) = apply_patch_list-Ready l.block_addrs c1 l.block_patches bs ab in
    (
      c2,
      rw e1 e2,
      AllLead-kept l.func_addrs c1 c2 l.func_patches l.block_patches each same2 l1,
      l2,
      λ x h k. same2 x k ∙ same1 x h,
    )
