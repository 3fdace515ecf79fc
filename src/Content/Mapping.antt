-- ===== src/Content/Mapping.antt =====
-- fs.c: bmap, by the case of the direct blocks and that of the entries of the indirect block.
use cse3320_proj1_ahmed_bahb.Common.{
  ℕ, ◌+◌, ◌-◌, ◌*◌, ◌<◌, ◌≡◌, ◌≢◌, refl, sym, ◌∙◌, ◌⊎◌, inl, inr, true, false, get_or, ltb, ◌==◌,
  arith, dec_lt, ℕ_discrete,
}
use cse3320_proj1_ahmed_bahb.Common.Outcome.{Outcome, ok, panic, ◌>>=◌}
use cse3320_proj1_ahmed_bahb.Args.{load}
use cse3320_proj1_ahmed_bahb.Bitmap.{Super}
use cse3320_proj1_ahmed_bahb.Bitmap.Marks.{used}
use cse3320_proj1_ahmed_bahb.Bitmap.Alloc.{balloc-Allocated}
use cse3320_proj1_ahmed_bahb.Dinode.{ndirect}
use cse3320_proj1_ahmed_bahb.Icache.{nindirect}
use cse3320_proj1_ahmed_bahb.Content.{Node, map_slot, map_entry, bmap}
use cse3320_proj1_ahmed_bahb.Content.Places.{places, place, place_of, indirect, IsFile}
use cse3320_proj1_ahmed_bahb.Content.Bmap.{
  Mapped, old-Mapped, place-entry, place-slot, slotted, slotted-Mapped,
}
use cse3320_proj1_ahmed_bahb.Content.Entry.{entered, entered-Mapped}

-- A call returns a block with what `Mapped` says, or panics with a vacant place and `Full`.
abbrev pub MapsTo : Super → Node → ℕ → Type 0 → Outcome (ℕ × Node) → Type 0
MapsTo sb s p Full m =
    ((c : ℕ) × (t : Node) × (m ≡ ok (c, t)) × Mapped sb s p c t)
    ⊎ ((m ≡ panic) × (place s p ≡ 0) × Full)

abbrev pub AllUsed : Super → Node → Type 0
AllUsed sb s = (j : ℕ) → j < sb.size → used sb s.disk j ≡ true

abbrev pub AllUsedButOne : Super → Node → Type 0
AllUsedButOne sb s = (c : ℕ) × ((j : ℕ) → j < sb.size → j ≢ c → used sb s.disk j ≡ true)

pub map_slot-MapsTo :
    (sb : Super) (s : Node) (k : ℕ)
    → IsFile sb s
    → k < 13
    → MapsTo sb s k (AllUsed sb s) (map_slot sb s k)
unfolding map_slot
map_slot-MapsTo sb s k v h =
    let at = place-slot s k h in
    elim (ℕ_discrete (place s k) 0) [
      | no ne ↦
          let t : (place s k == 0) ≡ false = ground arith in
          let t' = rw at at t in inl (place s k, s, rw (t', at) refl, old-Mapped sb s k v ne)
      | yes z ↦
          let t : (get_or s.fields.addrs k 0 == 0) ≡ true = let z' = rw at at z in ground arith in
          elim (balloc-Allocated sb s.disk v.calls v.bitmap) [
            | inl (c, d, e, al) ↦
                inl (
                  c,
                  slotted sb s v c d al k h z,
                  rw (t, e) refl,
                  slotted-Mapped sb s v c d al k h z,
                )
            | inr (e, full) ↦ inr (rw (t, e) refl, z, full)
          ]
    ]

pub map_entry-MapsTo :
    (sb : Super) (s : Node) (k : ℕ)
    → IsFile sb s
    → 13 + k < places
    → indirect s ≢ 0
    → MapsTo sb s (13 + k) (AllUsed sb s) (map_entry sb s (indirect s) k)
unfolding map_entry
map_entry-MapsTo sb s k v h some_block =
    let pos : (indirect s == 0) ≡ false = ground arith in
    let back = (v.calls (indirect s)).0 in
    let logged = (v.calls (indirect s)).1 in
    let at : place s (13 + k) ≡ load (s.disk (indirect s)) (4 * k) =
      rw (place-entry s k, pos) refl in
    elim (ℕ_discrete (place s (13 + k)) 0) [
      | no ne ↦
          let t : (place s (13 + k) == 0) ≡ false = ground arith in
          let t' = rw at at t in
          inl (place s (13 + k), s, rw (back, t', at) refl, old-Mapped sb s (13 + k) v ne)
      | yes z ↦
          let t : (load (s.disk (indirect s)) (4 * k) == 0) ≡ true =
            let z' = rw at at z in ground arith in
          elim (balloc-Allocated sb s.disk v.calls v.bitmap) [
            | inl (c, d, e, al) ↦ inl (
              c,
              entered sb s v c d al k h some_block z,
              rw (back, t, e, logged) refl,
              entered-Mapped sb s v c d al k h some_block z,
            )
            | inr (e, full) ↦ inr (rw (back, t, e) refl, z, full)
          ]
    ]

-- A fresh indirect block, then its entry.
Mapped-trans :
    (sb : Super) (s t u : Node) (k b c : ℕ)
    → 13 + k < places
    → place s ndirect ≡ 0
    → Mapped sb s ndirect b t
    → Mapped sb t (13 + k) c u
    → Mapped sb s (13 + k) c u
Mapped-trans sb s t u k b c h z m n =
    let far : 13 + k ≢ ndirect = omega arith in
    let same = m.others (13 + k) h far far in
    let present : place t ndirect ≢ 0 = λ e. m.present (sym m.here ∙ e) in
    let root : place u ndirect ≡ b = n.indirect_kept far present ∙ m.here in
    let gone : place s (13 + k) ≡ 0 = rw (place-entry s k, indirect-zero s z) refl in
    record {
      here = n.here;
      present = n.present;
      file = n.file;
      others = λ q hq np nd. n.others q hq np nd ∙ m.others q hq nd nd;
      indirect_kept = λ np nz. absurd (nz z);
      data_ = λ q hq nd nz.
          let e = m.others q hq nd nd in
          rw e at (n.data_ q hq nd (λ o. nz (sym e ∙ o))) ∙ m.data_ q hq nd nz;
      same = λ ne. absurd (ne gone);
      zeroed = λ o. n.zeroed (same ∙ o);
      marks = λ j hj ne ni.
          n.marks j hj ne ni
          ∙ m.marks j hj (λ e. ni (e ∙ sym root)) (λ e. ni (e ∙ m.here ∙ sym root));
      apart = λ x h. n.apart x (m.apart x h);
      size = (n.size.0 ∙ m.size.0, n.size.1 ∙ m.size.1);
    }
  where
    indirect-zero : (s : Node) → place s ndirect ≡ 0 → indirect s ≡ 0
    indirect-zero s z = sym (place-slot s ndirect (omega arith)) ∙ z

-- The case of `bmap` above the direct blocks.
entries-MapsTo :
    (sb : Super) (s : Node) (k : ℕ)
    → IsFile sb s
    → 13 + k < places
    → MapsTo sb s
        (13 + k)
        (AllUsedButOne sb s)
        (map_slot sb s ndirect >>= λ r. map_entry sb r.1 r.0 k)
entries-MapsTo sb s k v hk = elim (map_slot-MapsTo sb s ndirect v (omega arith)) [
  | inr (e, z, full) ↦
      let z' : indirect s ≡ 0 = sym (place-slot s ndirect (omega arith)) ∙ z in
      inr (rw e refl, rw (place-entry s k, z') refl, (0, λ j lt ne. full j lt))
  | inl (b, t, e, m) ↦
      let root : indirect t ≡ b = sym (place-slot t ndirect (omega arith)) ∙ m.here in
      let rest = rw root at (map_entry-MapsTo sb t k m.file hk (λ o. m.present (sym root ∙ o))) in
      elim rest [
        | inl (c, u, e', n) ↦ inl (
          c,
          u,
          rw (e, e') refl,
          elim (ℕ_discrete (place s ndirect) 0) [
            | yes z ↦ Mapped-trans sb s t u k b c hk z m n
            | no nz ↦ rw (m.same nz) at n
          ],
        )
        | inr (e', z', full) ↦
            let far : 13 + k ≢ ndirect = omega arith in
            inr (
              rw (e, e') refl,
              sym (m.others (13 + k) hk far far) ∙ z',
              (b, λ j lt ne. sym (m.marks j lt ne (λ o. ne (o ∙ m.here))) ∙ full j lt),
            )
      ]
]

-- For a block of the file below 140, `bmap` on a file that is in order returns the block of its place,
-- which it takes from the free ones and clears if there is none yet, and with it the indirect block if that
-- is wanted; it leaves the other blocks of the file as they are. It panics only if the place is vacant and
-- at most one block of the disk is free.
pub bmap-MapsTo :
    (sb : Super) (s : Node) (bn : ℕ)
    → IsFile sb s
    → bn < ndirect + nindirect
    → MapsTo sb s (place_of bn) (AllUsedButOne sb s) (bmap sb s bn)
unfolding bmap
bmap-MapsTo sb s bn v h = elim (dec_lt bn ndirect) [
  | yes near ↦
      let t : ltb bn ndirect ≡ true = ground arith in
      rw t (elim (map_slot-MapsTo sb s bn v (omega arith)) [
        | inl done ↦ inl done
        | inr (e, z, full) ↦ inr (e, z, (0, λ j lt ne. full j lt))
      ])
  | no far ↦
      let t : ltb bn ndirect ≡ false = ground arith in
      let t' : ltb (bn - ndirect) nindirect ≡ true = ground arith in
      let e : bn + 1 ≡ 13 + (bn - ndirect) = omega arith in
      rw (t, t', e) (entries-MapsTo sb s (bn - ndirect) v (omega arith))
]
