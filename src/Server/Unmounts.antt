-- ===== src/Server/Unmounts.antt =====
-- What unmounting all volumes of a server leaves, and returns.
use afpfs_ng.Common.{
  ◌≡◌, ◌⊎◌, refl, ap, sym, ◌∙◌, List, [], ◌∷◌, ◌++◌, true, false, ◌||◌, if◌then◌else◌, All,
  Bool-cases, inl, inr,
}
use afpfs_ng.Server.Mounts.{
  Mount, mounted, unmounted, is_unmounted, something_is_mounted, closed_volume, afp_unmount_volume,
  unmount_from, afp_unmount_all_volumes,
}
use afpfs_ng.Volume.{World}

-- No volume is being unmounted by another thread.
abbrev pub IsSettled : Mount → Type 0
IsSettled m = (m.mounted ≡ unmounted) ⊎ (m.mounted ≡ mounted)

something_is_mounted-append :
    (ms ns : List Mount)
    → something_is_mounted (ms ++ ns) ≡ (something_is_mounted ms || something_is_mounted ns)
unfolding something_is_mounted
something_is_mounted-append [] ns = refl
something_is_mounted-append (m ∷ ms) ns = elim (Bool-cases (is_unmounted m.mounted)) [
  | inl e ↦ rw e (something_is_mounted-append ms ns)
  | inr e ↦ rw e refl
]

is_mounted-replaced :
    (before : List Mount) (m : Mount) (after : List Mount)
    → something_is_mounted before ≡ false
    → m.mounted ≡ unmounted
    → something_is_mounted (before ++ (m ∷ after)) ≡ something_is_mounted after
unfolding something_is_mounted
is_mounted-replaced before m after h e =
    something_is_mounted-append before (m ∷ after) ∙ rw (h, e) refl

unmount_volume-mounted :
    (w : World) (before : List Mount) (m : Mount) (after : List Mount)
    → m.mounted ≡ mounted
    → let u = afp_unmount_volume w before m after in
      (u.mount.mounted ≡ unmounted)
      × (u.result ≡ something_is_mounted (before ++ (u.mount ∷ after)))
unfolding afp_unmount_volume
unmount_volume-mounted w before m after e =
    let done : Mount = record {
      mounted = unmounted;
      volume = closed_volume w m.volume;
      is_cache_freed = true;
    } in
    elim (Bool-cases (something_is_mounted (before ++ (done ∷ after)))) [
      | inl more ↦ rw (e, more) (refl, sym more)
      | inr last ↦ rw (e, last) (refl, sym last)
    ]

unmount_from_nil :
    (w : World) (before : List Mount)
    → something_is_mounted before ≡ false
    → let r = unmount_from w before [] in (something_is_mounted r.1 ≡ false) × (r.0 ≡ false)
unfolding unmount_from
unmount_from_nil w before h = (h, refl)

unmount_from-unmounted :
    (w : World) (before : List Mount) (m : Mount) (after : List Mount)
    → m.mounted ≡ unmounted
    → unmount_from w before (m ∷ after) ≡ unmount_from w (before ++ (m ∷ [])) after
unfolding unmount_from
unmount_from-unmounted w before m after e = simp e

unmount_from-mounted :
    (w : World) (before : List Mount) (m : Mount) (after : List Mount)
    → m.mounted ≡ mounted
    → let u = afp_unmount_volume w before m after in
      unmount_from w before (m ∷ after) ≡ (
        if u.result
        then unmount_from w (before ++ (u.mount ∷ [])) after
        else (true, before ++ (u.mount ∷ after)))
unfolding unmount_from
unmount_from-mounted w before m after e = simp e

unmount_from-unmounts :
    (w : World) (before after : List Mount)
    → something_is_mounted before ≡ false
    → All IsSettled after
    → let r = unmount_from w before after in
      (something_is_mounted r.1 ≡ false) × (r.0 ≡ something_is_mounted after)
unfolding something_is_mounted
unmount_from-unmounts w before [] h s = unmount_from_nil w before h
unmount_from-unmounts w before (m ∷ after) h s = elim s.0 [
  | inl e ↦
      let eq = unmount_from-unmounted w before m after e in
      let rest =
        unmount_from-unmounts w (before ++ (m ∷ [])) after (is_mounted-replaced before m [] h e)
          s.1 in
      let same : something_is_mounted (m ∷ after) ≡ something_is_mounted after = rw e refl in
      (ap (λ r. something_is_mounted r.1) eq ∙ rest.0, ap (λ r. r.0) eq ∙ (rest.1 ∙ sym same))
  | inr e ↦
      let u = afp_unmount_volume w before m after in
      let (done, result) = unmount_volume-mounted w before m after e in
      let left = is_mounted-replaced before u.mount after h done in
      let was : something_is_mounted (m ∷ after) ≡ true = rw e refl in
      let eq = unmount_from-mounted w before m after e in
      elim (Bool-cases (something_is_mounted after)) [
        | inl more ↦
            let rest =
              unmount_from-unmounts w (before ++ (u.mount ∷ [])) after
                (is_mounted-replaced before u.mount [] h done) s.1 in
            let on : unmount_from w before (m ∷ after)
                ≡ unmount_from w (before ++ (u.mount ∷ [])) after =
              eq ∙ rw (result ∙ left ∙ more) refl in
            (
              ap (λ r. something_is_mounted r.1) on ∙ rest.0,
              ap (λ r. r.0) on ∙ (rest.1 ∙ more ∙ sym was),
            )
        | inr last ↦
            let stop : unmount_from w before (m ∷ after) ≡ (true, before ++ (u.mount ∷ after)) =
              eq ∙ rw (result ∙ left ∙ last) refl in
            (ap (λ r. something_is_mounted r.1) stop ∙ (left ∙ last), ap (λ r. r.0) stop ∙ sym was)
      ]
]

-- Where no other thread unmounts a volume, `afp_unmount_all_volumes` leaves none mounted; and what
-- it returns is 1 exactly if one was.
pub afp_unmount_all_volumes-unmounts :
    (w : World) (volumes : List Mount)
    → All IsSettled volumes
    → let r = afp_unmount_all_volumes w volumes in
      (something_is_mounted r.1 ≡ false) × (r.0 ≡ something_is_mounted volumes)
unfolding afp_unmount_all_volumes something_is_mounted
afp_unmount_all_volumes-unmounts w volumes h = unmount_from-unmounts w [] volumes refl h
