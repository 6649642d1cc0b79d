-- ===== src/Examples/Posts.antt =====
-- Runs of the handler of posts.
use py_aleph.Prelude.{ℕ, ◌+◌, ◌≡◌, refl, Option, true, false, none, some, [], ◌∷◌, first}
use py_aleph.Result.{ok}
use py_aleph.Node.{
  MessageType, inline, amend, named, PostRef, text, PostContent, post_content, Message, put,
}
use py_aleph.Balances.{Balance, is_balance_of, update_balances}
use py_aleph.Balances.Reports.{first-update_balances}
use py_aleph.Posts.{
  PostTables, MergedPost, PostEnv, get_original_post, get_post, add_post, delete_posts,
  delete_amends, delete_post, refresh_latest_amend, post_of, process_post, forget_post,
}
use py_aleph.Posts.Latest.{IsCurrent}
use py_aleph.Posts.Process.{process_post-IsCurrent, get_post-process_post}
use py_aleph.Posts.Forget.{forget_post-IsCurrent}

abbrev pub env : PostEnv ℕ
env = record {
  balances_addresses = [];
  balances_post_type = named 9;
  fields = λ body. record { chain = none; main_height = none; dapp = none; balances = none };
  is_empty = λ body. false;
  is_chain = λ chain. true;
  none_text = 0;
  chain_ref_text = λ h. 0;
  security = λ address. none;
}

abbrev no_posts : PostTables ℕ
no_posts = record { posts = []; latest_amend = λ h. none; balances = [] }

-- An original post, an amend of it, and the messages of both.
abbrev pub content_of : ℕ → Option PostRef → PostContent
content_of n none = record { address = 5; time = 100; type = named 1; ref = none; body = n }
content_of n (some ref) = record {
  address = 5;
  time = 100 + n;
  type = amend;
  ref = some ref;
  body = n;
}

abbrev pub original_content : PostContent
original_content = content_of 1 none

abbrev pub amend_content : PostContent
amend_content = content_of 50 (some (text 7))

abbrev pub post_message : ℕ → PostContent → Message
post_message h content = record {
  item_hash = h;
  type = MessageType.post;
  chain = 1;
  sender = 5;
  signature = some 9;
  item_type = inline;
  content = post_content content;
  time = 100;
  channel = none;
  size = 10;
}

abbrev pub original_message : Message
original_message = post_message 7 original_content

abbrev pub amend_message : Message
amend_message = post_message 8 amend_content

abbrev pub one_post : PostTables ℕ
one_post = record {
  posts = post_of env original_message original_content ∷ [];
  latest_amend = put (λ h. none) 7 none;
  balances = [];
}

abbrev pub two_posts : PostTables ℕ
two_posts = record {
  posts =
      post_of env original_message original_content ∷ post_of env amend_message amend_content ∷ [];
  latest_amend = put (put one_post.latest_amend 8 none) 7 (some 8);
  balances = [];
}

no_posts-IsCurrent : IsCurrent no_posts
no_posts-IsCurrent = record { unique = tt; keys = refl; latest = λ h. tt }

run_original : process_post env original_message no_posts ≡ ok one_post
unfolding process_post add_post get_post get_original_post
run_original = refl

run_amend : process_post env amend_message one_post ≡ ok two_posts
unfolding process_post add_post get_post get_original_post
run_amend = refl

one_post-IsCurrent : IsCurrent one_post
one_post-IsCurrent =
    process_post-IsCurrent env original_message no_posts one_post run_original no_posts-IsCurrent

process_post-IsCurrent_example : IsCurrent two_posts
process_post-IsCurrent_example =
    process_post-IsCurrent env amend_message one_post two_posts run_amend one_post-IsCurrent

-- The original as it is shown before the amend.
abbrev shown : MergedPost
shown = record {
  item_hash = 7;
  content = 1;
  original_item_hash = 7;
  original_type = named 1;
  owner = 5;
  ref = none;
  channel = none;
  last_updated = 100;
  created = 100;
}

shown_before : get_post 7 one_post ≡ some shown
unfolding get_post get_original_post
shown_before = refl

get_post-process_post_example :
    get_post 7 two_posts ≡ some (record shown { item_hash = 8; content = 50; last_updated = 150 })
get_post-process_post_example =
    get_post-process_post env amend_message amend_content 7 shown one_post two_posts refl refl refl
      one_post-IsCurrent shown_before run_amend

-- The tables after the amend is forgotten.
abbrev amend_forgotten : PostTables ℕ
amend_forgotten = record one_post { latest_amend = put two_posts.latest_amend 7 none }

run_forget : forget_post env amend_message two_posts ≡ ok (amend_forgotten, [])
unfolding forget_post delete_amends delete_posts delete_post get_original_post refresh_latest_amend
run_forget = refl

two_posts-IsCurrent : IsCurrent two_posts
two_posts-IsCurrent =
    process_post-IsCurrent env amend_message one_post two_posts run_amend one_post-IsCurrent

forget_post-IsCurrent_example : IsCurrent amend_forgotten
forget_post-IsCurrent_example =
    forget_post-IsCurrent env amend_message amend_content two_posts amend_forgotten [] refl tt refl
      run_forget two_posts-IsCurrent

-- A balance at the height 20, reported again at the height 30.
abbrev old_balance : Balance ℕ
old_balance = record { address = 5; chain = 1; dapp = none; eth_height = 20; balance = 400 }

first-update_balances_example :
    first
      (is_balance_of 5 1 none)
      (update_balances 1 none 30 ((4, 7) ∷ (5, 90) ∷ []) (old_balance ∷ []))
    ≡ some (record old_balance { eth_height = 30; balance = 90 })
first-update_balances_example =
    first-update_balances 5 1 1 none none 30 ((4, 7) ∷ (5, 90) ∷ []) (old_balance ∷ [])
