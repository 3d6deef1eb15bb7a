-- ===== src/Math/Factory.antt =====
-- math/include/fft_factory.h and math/fft_factory.cc: which classes stand behind the interfaces.
use nbsdk.Math.Fftw
use nbsdk.Math.Fftw.{Fftw}
use nbsdk.Math.Ifftw
use nbsdk.Math.Ifftw.{Ifftw}

unfoldable pub create_fft : {R C : Type 0} → Fftw R C
unfolding Fftw.create
create_fft = Fftw.create

unfoldable pub create_ifft : {C R : Type 0} → Ifftw C R
unfolding Ifftw.create
create_ifft = Ifftw.create
