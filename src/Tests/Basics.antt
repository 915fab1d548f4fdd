-- ===== src/Tests/Basics.antt =====
-- The texts, tokens, slugs and pages at work.
use collabflow.Common.{
  ◌≡◌, ◌⊎◌, ◌++◌, contains, any, refl, true, false, Text, [], ◌∷◌, codes, take, suc,
}
use collabflow.World.{ok}
use collabflow.Runtime.{WordLaws}
use collabflow.Slugs.{slugify}
use collabflow.Slugs.Laws.{is_slug, slugify-is_slug}
use collabflow.Mentions.{extract_mentioned_emails, span, is_local, is_domain, is_tail}
use collabflow.Mentions.Pattern.{extract_mentioned_emails-mention}
use collabflow.Crud.Organization.{slug_taken}
use collabflow.Service.Organization.{unique_org_slug}
use collabflow.Service.Organization.Slug.{unique_org_slug-free}
use collabflow.Tests.Libraries.{plain_runtime}
use collabflow.Tests.Tables.{small_world}

slugify-is_slug_example :
    ((is_slug (slugify plain_runtime 5 (codes "big-plan")) ≡ true)
      ⊎ (slugify plain_runtime 5 (codes "big-plan") ≡ take 8 (plain_runtime.uuid_hex 5)))
    × (plain_runtime.lower (codes "big-plan") ≡ codes "big-plan"
        → is_slug (codes "big-plan") ≡ true
        → slugify plain_runtime 5 (codes "big-plan") ≡ codes "big-plan")
slugify-is_slug_example = slugify-is_slug plain_runtime 5 (codes "big-plan")

plain_words : WordLaws plain_runtime
plain_words = record { at_sign = refl; full_stop = refl }

extract_mentioned_emails-mention_example :
    extract_mentioned_emails plain_runtime (
      codes "hi "
      ++ b'@' ∷ (codes "bob" ++ (b'@' ∷ (codes "site" ++ (b'.' ∷ (codes "org" ++ codes ", ok"))))))
    ≡ (codes "bob" ++ b'@' ∷ codes "site" ++ b'.' ∷ codes "org") ∷ []
unfolding is_local is_domain is_tail contains
extract_mentioned_emails-mention_example =
    extract_mentioned_emails-mention plain_runtime plain_words (codes "hi ") b'b' b's' b'o'
      (codes "ob") (codes "ite") (codes "rg") (codes ", ok") refl refl refl refl refl refl

unique_org_slug-free_example :
    (found : Text) × (unique_org_slug plain_runtime (codes "acme") small_world
      ≡ (ok found, record small_world { drawn = suc small_world.drawn }))
    × (slug_taken found small_world.session ≡ false)
unique_org_slug-free_example = unique_org_slug-free plain_runtime (codes "acme") small_world

-- The regular expression's last class holds the full stop, so that a mention at the end of a
-- sentence takes the full stop with it.
mention_takes_full_stop :
    extract_mentioned_emails plain_runtime (codes "Ask @bob@site.org.") ≡ codes "bob@site.org." ∷ []
unfolding extract_mentioned_emails span is_local is_domain is_tail any
mention_takes_full_stop = refl
