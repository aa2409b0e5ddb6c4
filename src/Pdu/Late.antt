-- ===== src/Pdu/Late.antt =====
-- Channels that are made after the area (`create_channel` and `create` of hako_pdu_data.hpp): they have
-- no region of their own.
use hakoniwa_core_cpp.Prelude.{
  ℕ, zero, suc, ◌+◌, ◌≤◌, ◌<◌, true, false, List, [], ◌∷◌, length, drop, get_elem?, none, some,
  ◌||◌, ◌≡◌, refl, ap, ◌∙◌, arith, inl, inr, Option-cases,
}
use hakoniwa_core_cpp.Pdu.Types.{Channel, asset_mode, Pdu, Env, returns, faults, mem_write}
use hakoniwa_core_cpp.Pdu.Channels.{size_at, set_size, create_channel}
use hakoniwa_core_cpp.Pdu.Area.{create}
use hakoniwa_core_cpp.Pdu.Transfer.{offset_at, any_rbusy, is_pdu_rbusy, store, write_pdu}
use hakoniwa_core_cpp.Pdu.Layout.{IsReady, IsLaidOut, sum_sizes}

-- The last channels, with no size yet, all begin where the area ends.
offset-last :
    (off c : ℕ) (cs : List Channel)
    → IsLaidOut off cs
    → sum_sizes (drop c cs) ≡ 0
    → c < length cs
    → offset_at c cs ≡ off + sum_sizes cs
unfolding sum_sizes
offset-last off c [] l z h = absurd (omega arith)
offset-last off zero (x ∷ cs) l z h = omega (arith, l.0)
offset-last off (suc c) (x ∷ cs) l z h =
    omega (arith, offset-last (off + x.size) c cs l.1 z (omega arith))

offset-set_size :
    (c n : ℕ) (cs : List Channel)
    → c < length cs
    → (offset_at c (set_size c n cs) ≡ offset_at c cs)
      × (size_at c (set_size c n cs) ≡ n)
      × (length (set_size c n cs) ≡ length cs)
offset-set_size c n [] h = absurd (omega arith)
offset-set_size zero n (x ∷ cs) h = (refl, refl, refl)
offset-set_size (suc c) n (x ∷ cs) h = elim (Option-cases (get_elem? cs c)) [
  | inl out ↦ let r = offset-set_size c n cs (omega arith) in ground (arith, r)
  | inr (y, at) ↦ let r = offset-set_size c n cs (omega arith) in ground (arith, r)
]

-- The data after `create_channel` of a channel that is not in use.
abbrev pub with_channel : ℕ → ℕ → Pdu → Pdu
with_channel c size p = record p {
  meta = record p.meta {
    channel = set_size c size p.meta.channel;
    channel_num = p.meta.channel_num + 1;
  };
}

created :
    (c size : ℕ) (p : Pdu)
    → c < length p.meta.channel
    → p.meta.table_busy ≡ false
    → size_at c p.meta.channel ≡ 0
    → create_channel c size p ≡ returns (with_channel c size p, true)
unfolding create_channel
created c size p h t z = ground arith

beyond_the_end :
    (off : ℕ) (bytes area : List ℕ)
    → off ≡ length area
    → 0 < length bytes
    → mem_write off bytes area ≡ none
unfolding mem_write
beyond_the_end off bytes area e h = ground arith

write-beyond :
    (env : Env) (c : ℕ) (bytes area : List ℕ) (p : Pdu)
    → p.attached ≡ true
    → p.area ≡ some area
    → c < length p.meta.channel
    → length bytes ≤ size_at c p.meta.channel
    → is_pdu_rbusy c p.meta ≡ false
    → mem_write (offset_at c p.meta.channel) bytes area ≡ none
    → write_pdu env c bytes p ≡ faults
unfolding write_pdu store
write-beyond env c bytes area p a b h k r out = ground arith

-- The process's data after `create` is called again.
abbrev again : ℕ → Pdu → Pdu
again n p = record p { meta = record p.meta { asset_num = n; mode = asset_mode } }

same_rbusy :
    (n c d size : ℕ) (p : Pdu)
    → is_pdu_rbusy d (again n (with_channel c size p)).meta ≡ is_pdu_rbusy d p.meta
unfolding is_pdu_rbusy any_rbusy
same_rbusy n c d size p = ap (λ b. p.meta.rbusy_external d || b) (go (length p.meta.check_status))
  where
    go : (k : ℕ) → any_rbusy k d (again n (with_channel c size p)).meta ≡ any_rbusy k d p.meta
    go zero = refl
    go (suc k) = ap (λ b. b || p.meta.rbusy k d) (go k)

-- In an area in which every channel has its region, and none from `c` on has a size: if channel `c` is
-- made now, and `create` called again, each write to it that is not empty goes outside the area.
pub write-late :
    (env : Env) (n c size : ℕ) (bytes : List ℕ) (p : Pdu)
    → IsReady p
    → env.init_lock ≡ true
    → c < length p.meta.channel
    → sum_sizes (drop c p.meta.channel) ≡ 0
    → p.meta.table_busy ≡ false
    → is_pdu_rbusy c p.meta ≡ false
    → 0 < length bytes
    → length bytes ≤ size
    → (q r : Pdu) × (create_channel c size p ≡ returns (q, true))
      × (create env n q ≡ returns r)
      × (write_pdu env c bytes r ≡ faults)
unfolding create sum_sizes
write-late env n c size bytes p v lock h z t free some_bytes fits =
    let (place, now, len) = offset-set_size c size p.meta.channel h in
    let at_end = offset-last 0 c p.meta.channel v.laid_out z h in
    let q = with_channel c size p in
    let r = again n q in
    (
      q,
      r,
      created c size p h t (empty_at c p.meta.channel z h),
      ground (arith, v.is_attached),
      write-beyond env c bytes v.bytes r v.is_attached v.has_area (omega (arith, len))
          (omega (arith, now)) (same_rbusy n c c size p ∙ free)
          (beyond_the_end (offset_at c r.meta.channel) bytes v.bytes
            (omega (arith, place, at_end, v.fits)) some_bytes),
    )
  where
    empty_at :
        (i : ℕ) (cs : List Channel) → sum_sizes (drop i cs) ≡ 0 → i < length cs → size_at i cs ≡ 0
    empty_at i [] e k = absurd (omega arith)
    empty_at zero (x ∷ cs) e k = omega arith
    empty_at (suc i) (x ∷ cs) e k = empty_at i cs e (omega arith)
