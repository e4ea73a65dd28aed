-- ===== src/Page/Tests.antt =====
-- Pages at fixed numbers.
use lesser.Common.{◌≡◌, refl, none}
use lesser.Common.Int.{pos, negsuc, int32, ◌*ℤ◌}
use lesser.Page.{normalize, new_request, offset, new_response, build_limit_offset}

build_limit_offset-third : build_limit_offset (pos 3) (negsuc 4) ≡ (pos 20, pos 40)
unfolding build_limit_offset new_request normalize offset int32 ◌*ℤ◌
build_limit_offset-third = refl

build_limit_offset-far : build_limit_offset (pos 21474838) (pos 500) ≡ (pos 100, negsuc 2147483595)
unfolding build_limit_offset new_request normalize offset int32 ◌*ℤ◌
build_limit_offset-far = refl

new_response-no_size : new_response (pos 1) (pos 0) (pos 5) ≡ none
unfolding new_response
new_response-no_size = refl
